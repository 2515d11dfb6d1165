-- ===== src/Thread.antt =====
-- include/kernel/threading/thread.h, kernel/threading/thread.c and the saved registers of
-- include/arch/cpu/interrupts.h.
pub mod Init
pub mod Trampoline
pub mod Frame
use betriebssysteme.Common.{
  ℕ, ◌+◌, ◌-◌, ◌*◌, ◌/◌, Option, none, some, leb, if◌then◌else◌, ◌≡◌, ◌≤◌, true, false, refl, arith,
}
use betriebssysteme.Common.Words.{add_u32, sub_u32}
use betriebssysteme.Cpu.{
  Cpu, read_lr_mode, read_sp_mode, read_spsr, cpu_mode_usr, psr_mode, set_psr_mode, write_sp_mode,
  write_lr_mode, write_spsr,
}
use betriebssysteme.LinkedList.{Ptr}
use betriebssysteme.Mem.{Memory, memcpy}

-- `struct saved_registers`: what an exception handler's entry pushes.
pub record SavedRegisters : Type 0 where
  pub r0 : ℕ
  pub r1 : ℕ
  pub r2 : ℕ
  pub r3 : ℕ
  pub r4 : ℕ
  pub r5 : ℕ
  pub r6 : ℕ
  pub r7 : ℕ
  pub r8 : ℕ
  pub r9 : ℕ
  pub r10 : ℕ
  pub r11 : ℕ
  pub r12 : ℕ
  pub pc : ℕ

-- `struct thread_context`: all that a thread in user mode sees of the processor.
pub record ThreadContext : Type 0 where
  pub r0 : ℕ
  pub r1 : ℕ
  pub r2 : ℕ
  pub r3 : ℕ
  pub r4 : ℕ
  pub r5 : ℕ
  pub r6 : ℕ
  pub r7 : ℕ
  pub r8 : ℕ
  pub r9 : ℕ
  pub r10 : ℕ
  pub r11 : ℕ
  pub r12 : ℕ
  pub pc : ℕ
  pub lr : ℕ
  pub sp : ℕ
  pub cpsr : ℕ

-- `enum thread_status`
pub data ThreadStatus : Type 0 where
  terminated ready running waiting sleeping : ThreadStatus

-- `struct thread`. The member `queue` is the list node at the thread's own number, and `stack` the
-- area of memory that `Layout` names.
pub record Thread : Type 0 where
  pub id : ℕ
  pub fn : ℕ
  pub status : ThreadStatus
  pub context : ThreadContext
  pub sleep_counter : ℕ

-- The context of `(struct thread_context){ 0 }`.
abbrev pub zero_context : ThreadContext
zero_context = record {
  r0 = 0;
  r1 = 0;
  r2 = 0;
  r3 = 0;
  r4 = 0;
  r5 = 0;
  r6 = 0;
  r7 = 0;
  r8 = 0;
  r9 = 0;
  r10 = 0;
  r11 = 0;
  r12 = 0;
  pc = 0;
  lr = 0;
  sp = 0;
  cpsr = 0;
}

abbrev pub thread_stack_size : ℕ
thread_stack_size = 4096

-- A `struct thread *`: the index into `scheduler_threads`, or the number below for `idle_thread`.
abbrev pub ThreadPtr : Type 0
ThreadPtr = ℕ

-- What the linker decides: where each thread's stack begins, and the addresses of functions.
pub record Layout : Type 0 where
  pub stack : ThreadPtr → ℕ
  pub thread_entry : ℕ
  pub idle_thread_fn : ℕ
  pub user_main : ℕ
  pub ivt : ℕ

-- `sp & ~0b111` of a 32-bit word.
abbrev pub align_down : ℕ → ℕ
align_down sp = sp / 8 * 8

-- Where `thread_init` puts the argument: below the end of the stack, rounded down.
unfoldable pub initial_sp : ℕ → ℕ → ℕ
initial_sp stack arg_size = align_down (sub_u32 (add_u32 stack thread_stack_size) arg_size)

-- What `thread_init` does to the thread and the memory, if the argument fits the stack.
unfoldable pub init_thread : Layout → ThreadPtr → ℕ → ℕ → ℕ → Thread → Memory → Thread × Memory
unfolding initial_sp
init_thread layout ptr fn arg arg_size thread m =
    let sp : ℕ = initial_sp (layout.stack ptr) arg_size in
    let c : ThreadContext = thread.context in
    (
      record thread {
        fn = fn;
        context = record c {
          cpsr = set_psr_mode cpu_mode_usr 0;
          sp = sp;
          pc = layout.thread_entry;
        };
        status = ready;
      },
      memcpy sp arg arg_size m,
    )

-- An argument that is larger than the stack is copied over the kernel's other data: C leaves undefined
-- what becomes of it, here `none`. `arg_size` is not checked.
unfoldable pub thread_init :
    Layout → ThreadPtr → ℕ → ℕ → ℕ → Thread → Memory → Option (Thread × Memory)
unfolding init_thread
thread_init layout ptr fn arg arg_size thread m =
    if leb arg_size thread_stack_size
    then some (init_thread layout ptr fn arg arg_size thread m)
    else none

pub thread_init-fits :
    (layout : Layout) (ptr : ThreadPtr) (fn arg arg_size : ℕ) (thread : Thread) (m : Memory)
    → arg_size ≤ thread_stack_size
    → thread_init layout ptr fn arg arg_size thread m
      ≡ some (init_thread layout ptr fn arg arg_size thread m)
unfolding thread_init
thread_init-fits layout ptr fn arg arg_size thread m le =
    let fits : leb arg_size thread_stack_size ≡ true = ground arith in rw fits refl

pub thread_init-exceeds :
    (layout : Layout) (ptr : ThreadPtr) (fn arg arg_size : ℕ) (thread : Thread) (m : Memory)
    → leb arg_size thread_stack_size ≡ false
    → thread_init layout ptr fn arg arg_size thread m ≡ none
unfolding thread_init
thread_init-exceeds layout ptr fn arg arg_size thread m e = rw e refl

-- `container_of(node, struct thread, queue)`: the node's number is the thread's.
unfoldable pub thread_from_queue : Option Ptr → Option ThreadPtr
thread_from_queue none = none
thread_from_queue (some node) = some node

-- What the assembly of `_thread_run_trampoline` leaves in the user's registers: `r0` to `r12` and
-- `pc` of the context, and the banked registers of the mode of SPSR.
unfoldable pub thread_run_trampoline : ThreadContext → Cpu → ThreadContext
unfolding read_lr_mode read_sp_mode read_spsr
thread_run_trampoline c cpu = record c {
  lr = read_lr_mode (psr_mode (read_spsr cpu)) cpu;
  sp = read_sp_mode (psr_mode (read_spsr cpu)) cpu;
  cpsr = read_spsr cpu;
}

-- `thread_run`: the thread, the processor, and what the thread starts with.
unfoldable pub thread_run : Thread → Cpu → Thread × Cpu × ThreadContext
unfolding thread_run_trampoline write_sp_mode write_lr_mode write_spsr
thread_run thread cpu =
    let context : ThreadContext = thread.context in
    let cpu1 : Cpu = write_sp_mode (psr_mode context.cpsr) context.sp cpu in
    let cpu2 : Cpu = write_lr_mode (psr_mode context.cpsr) context.lr cpu1 in
    let cpu3 : Cpu = write_spsr context.cpsr cpu2 in
    (record thread { status = running }, cpu3, thread_run_trampoline context cpu3)

-- What an exception other than a FIQ returns to, through the end of the macro `exception_trampoline`:
-- the mode of the exception shares `r0` to `r12` with user mode, so they are the registers of the
-- frame, the instruction behind the one that its `pc` names, and the banked registers of the
-- mode of SPSR.
unfoldable pub exception_return : SavedRegisters → Cpu → ThreadContext
exception_return frame cpu =
    let spsr : ℕ = read_spsr cpu in
    record {
      r0 = frame.r0;
      r1 = frame.r1;
      r2 = frame.r2;
      r3 = frame.r3;
      r4 = frame.r4;
      r5 = frame.r5;
      r6 = frame.r6;
      r7 = frame.r7;
      r8 = frame.r8;
      r9 = frame.r9;
      r10 = frame.r10;
      r11 = frame.r11;
      r12 = frame.r12;
      pc = add_u32 frame.pc 4;
      lr = read_lr_mode (psr_mode spsr) cpu;
      sp = read_sp_mode (psr_mode spsr) cpu;
      cpsr = spsr;
    }

-- What a FIQ returns to. Its mode has `r8` to `r12` of its own, which `pop` loads: those of user mode
-- stay as they are, those of the program that the FIQ interrupted.
unfoldable pub fiq_return : SavedRegisters → SavedRegisters → Cpu → ThreadContext
unfolding exception_return
fiq_return interrupted frame cpu = record (exception_return frame cpu) {
  r8 = interrupted.r8;
  r9 = interrupted.r9;
  r10 = interrupted.r10;
  r11 = interrupted.r11;
  r12 = interrupted.r12;
}
