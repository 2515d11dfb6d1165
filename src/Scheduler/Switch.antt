-- ===== src/Scheduler/Switch.antt =====
-- The part of kernel/threading/scheduler.c that saves and replaces the registers of threads.
use betriebssysteme.Common.{ℕ}
use betriebssysteme.Common.Words.{add_u32, sub_u32}
use betriebssysteme.Cpu.{
  Cpu, psr_mode, read_spsr, read_lr_mode, read_sp_mode, write_lr_mode, write_sp_mode, write_spsr,
}
use betriebssysteme.Kernel.{Kernel, set_thread}
use betriebssysteme.Thread.{ThreadPtr, Thread, ThreadContext, SavedRegisters, ThreadStatus}

unfoldable pub get_current_thread_fn : Kernel → ℕ
get_current_thread_fn k = (k.threads k.running).fn

-- `_thread_entry` of kernel/threading/trampolines.S up to its `blx r1`: the function that it calls, and
-- the argument in `r0`.
unfoldable pub run_thread_entry : Kernel → ThreadContext → ℕ × ℕ
unfolding get_current_thread_fn
run_thread_entry k user = (get_current_thread_fn k, user.sp)

unfoldable pub get_current_thread_context : Kernel → ThreadContext
get_current_thread_context k = (k.threads k.running).context

unfoldable pub scheduler_begin_exception : SavedRegisters → Kernel → Kernel
scheduler_begin_exception regs k = record k { frame = regs }

unfoldable pub scheduler_save_thread_context : SavedRegisters → Cpu → ThreadContext
unfolding read_spsr read_lr_mode read_sp_mode
scheduler_save_thread_context frame cpu =
    let spsr : ℕ = read_spsr cpu in
    record {
      r0 = frame.r0;
      r1 = frame.r1;
      r2 = frame.r2;
      r3 = frame.r3;
      r4 = frame.r4;
      r5 = frame.r5;
      r6 = frame.r6;
      r7 = frame.r7;
      r8 = frame.r8;
      r9 = frame.r9;
      r10 = frame.r10;
      r11 = frame.r11;
      r12 = frame.r12;
      pc = add_u32 frame.pc 4;
      lr = read_lr_mode (psr_mode spsr) cpu;
      sp = read_sp_mode (psr_mode spsr) cpu;
      cpsr = spsr;
    }

unfoldable pub scheduler_save_current : ThreadStatus → Kernel → Kernel
scheduler_save_current status k =
    let thread : Thread = k.threads k.running in
    set_thread k.running
      (record thread { status = status; context = scheduler_save_thread_context k.frame k.cpu }) k

-- The frame that `scheduler_replace_irq_context` writes.
unfoldable pub context_frame : ThreadContext → SavedRegisters
context_frame c = record {
  r0 = c.r0;
  r1 = c.r1;
  r2 = c.r2;
  r3 = c.r3;
  r4 = c.r4;
  r5 = c.r5;
  r6 = c.r6;
  r7 = c.r7;
  r8 = c.r8;
  r9 = c.r9;
  r10 = c.r10;
  r11 = c.r11;
  r12 = c.r12;
  pc = sub_u32 c.pc 4;
}

-- Its three writes to the processor, in order.
unfoldable pub load_context : ThreadContext → Cpu → Cpu
load_context c cpu =
    write_spsr c.cpsr
      (write_sp_mode (psr_mode c.cpsr) c.sp (write_lr_mode (psr_mode c.cpsr) c.lr cpu))

unfoldable pub scheduler_replace_irq_context : ThreadPtr → Kernel → Kernel
scheduler_replace_irq_context next_thread k =
    let context : ThreadContext = (k.threads next_thread).context in
    record k { frame = context_frame context; cpu = load_context context k.cpu }

unfoldable pub scheduler_prepare_svc_return : ℕ → Kernel → Kernel
scheduler_prepare_svc_return value k =
    let f : SavedRegisters = k.frame in record k { frame = record f { r0 = value } }
