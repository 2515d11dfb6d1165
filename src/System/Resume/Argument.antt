-- ===== src/System/Resume/Argument.antt =====
-- The argument of a thread that has been created.
use betriebssysteme.Common.{ℕ, ◌+◌, ◌%◌, ◌^◌, ◌<◌, ◌≤◌, ◌≡◌, ◌⊎◌, refl, sym, ap, ◌∙◌, some}
use betriebssysteme.Cpu.{cpu_mode_usr, psr_mode, read_spsr}
use betriebssysteme.Handlers.{handle_svc}
use betriebssysteme.Kernel.{Kernel, ok}
use betriebssysteme.Mem.{memcpy}
use betriebssysteme.Mem.Copy.{copied, memcpy-copied}
use betriebssysteme.Scheduler.{create_within, find_free_thread_id, scheduler_begin_exception}
use betriebssysteme.Syscalls.{Host}
use betriebssysteme.System.Reach.{final}
use betriebssysteme.System.Resume.Calls.{create_done}
use betriebssysteme.Thread.{
  Layout, ThreadPtr, SavedRegisters, initial_sp, init_thread, thread_stack_size,
}
use betriebssysteme.Thread.Init.{initial_sp_bounds}

created-memory :
    (layout : Layout) (fn arg size : ℕ) (t : ThreadPtr) (k : Kernel)
    → (create_within layout fn arg size (some t) k).memory
      ≡ memcpy (initial_sp (layout.stack t) size) arg size k.memory
unfolding create_within init_thread
created-memory layout fn arg size t k = refl

-- A call of `sys_create_thread` leaves a copy of the argument on the stack of the new thread, where its
-- stack pointer will point, and changes no other byte; the copy is aligned to 8 and lies within the
-- stack. The conditions are that the stack is aligned and below the end of the address space, that the
-- argument fits on it, and that the argument does not begin below the copy and reach into it.
pub created_argument :
    (host : Host) (k k1 : Kernel) (regs : SavedRegisters) (t : ThreadPtr) (a : ℕ)
    → psr_mode (read_spsr k.cpu) ≡ cpu_mode_usr
    → regs.r0 ≡ 1
    → find_free_thread_id k ≡ some t
    → handle_svc host regs k ≡ ok tt k1
    → host.layout.stack t % 8 ≡ 0
    → host.layout.stack t + thread_stack_size < 2 ^ 32
    → regs.r3 ≤ thread_stack_size
    → (initial_sp (host.layout.stack t) regs.r3 ≤ regs.r2)
      ⊎ (regs.r2 + regs.r3 ≤ initial_sp (host.layout.stack t) regs.r3)
    → (k1.memory a ≡ copied (initial_sp (host.layout.stack t) regs.r3) regs.r2 regs.r3 k.memory a)
      × (initial_sp (host.layout.stack t) regs.r3 % 8 ≡ 0)
      × (host.layout.stack t ≤ initial_sp (host.layout.stack t) regs.r3)
      × (initial_sp (host.layout.stack t) regs.r3 + regs.r3
          ≤ host.layout.stack t + thread_stack_size)
unfolding scheduler_begin_exception
created_argument host k k1 regs t a mode one free done aligned room fits apart =
    let k0 : Kernel = scheduler_begin_exception regs k in
    let made : Kernel = create_within host.layout regs.r1 regs.r2 regs.r3 (some t) k0 in
    let same : k1 ≡ made = ap (final k) (sym done ∙ create_done host regs k t mode one free fits) in
    let (even, low, high, tight) =
      initial_sp_bounds (host.layout.stack t) regs.r3 aligned room fits in
    (
      ap (λ (x : Kernel). x.memory a) same
          ∙ ap (λ m. m a) (created-memory host.layout regs.r1 regs.r2 regs.r3 t k0)
          ∙ memcpy-copied (initial_sp (host.layout.stack t) regs.r3) regs.r2 regs.r3 k.memory a
              apart,
      even,
      low,
      high,
    )
