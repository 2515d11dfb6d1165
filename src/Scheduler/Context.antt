-- ===== src/Scheduler/Context.antt =====
-- The context switch of kernel/threading/scheduler.c: a thread goes on with exactly the registers
-- that it had when it was interrupted.
use mathlib.Core.Path.{subst}
use betriebssysteme.Common.{◌<◌, ◌≡◌, ◌^◌, arith, refl, sym, ap, ◌∙◌, some, ==_refl}
use betriebssysteme.Common.Words.{add_u32, sub_u32}
use betriebssysteme.Cpu.{
  Cpu, Bank, set_bank, bank_index, psr_mode, bank_of_mode, current_bank, read_spsr, write_spsr,
  write_lr_mode, write_sp_mode,
}
use betriebssysteme.Cpu.Banks.{
  read_lr_mode_lem, read_sp_mode_lem, write_lr_mode_lem, write_sp_mode_lem,
}
use betriebssysteme.Kernel.{Kernel}
use betriebssysteme.Scheduler.{
  scheduler_save_thread_context, scheduler_save_current, context_frame, load_context,
  scheduler_replace_irq_context, scheduler_run_next,
}
use betriebssysteme.Thread.{
  ThreadPtr, Thread, thread_run, thread_run_trampoline, ThreadContext, ThreadStatus, SavedRegisters,
  exception_return,
}

-- What is saved is what the exception would have returned to.
pub save-exception_return :
    (frame : SavedRegisters) (cpu : Cpu)
    → scheduler_save_thread_context frame cpu ≡ exception_return frame cpu
unfolding scheduler_save_thread_context exception_return
save-exception_return frame cpu = refl

module _ (cpu : Cpu) (c : ThreadContext) (b : Bank)
    (mode : bank_of_mode (psr_mode c.cpsr) ≡ some b) where
  loaded : Cpu
  loaded = record cpu {
    lr = set_bank cpu.lr b c.lr;
    sp = set_bank cpu.sp b c.sp;
    spsr = set_bank cpu.spsr (current_bank cpu) c.cpsr;
  }

  load_context-loaded : load_context c cpu ≡ loaded
  unfolding load_context loaded write_spsr
  load_context-loaded = rw (
    write_lr_mode_lem cpu (psr_mode c.cpsr) b mode c.lr,
    write_sp_mode_lem (record cpu { lr = set_bank cpu.lr b c.lr }) (psr_mode c.cpsr) b mode c.sp,
  )

  read_spsr-loaded : read_spsr loaded ≡ c.cpsr
  unfolding loaded read_spsr
  read_spsr-loaded = rw (==_refl (bank_index (current_bank cpu)))

  lr-loaded : loaded.lr b ≡ c.lr
  unfolding loaded
  lr-loaded = rw (==_refl (bank_index b))

  sp-loaded : loaded.sp b ≡ c.sp
  unfolding loaded
  sp-loaded = rw (==_refl (bank_index b))

  -- `thread_run` loads a context too, in another order.
  run-loaded :
      write_spsr c.cpsr
        (write_lr_mode (psr_mode c.cpsr) c.lr (write_sp_mode (psr_mode c.cpsr) c.sp cpu))
      ≡ loaded
  unfolding loaded write_spsr
  run-loaded = rw (
    write_sp_mode_lem cpu (psr_mode c.cpsr) b mode c.sp,
    write_lr_mode_lem (record cpu { sp = set_bank cpu.sp b c.sp }) (psr_mode c.cpsr) b mode c.lr,
  )

  trampoline-loaded : thread_run_trampoline c loaded ≡ c
  unfolding thread_run_trampoline
  trampoline-loaded =
      rw
        (
          read_spsr-loaded,
          read_lr_mode_lem loaded (psr_mode c.cpsr) b mode,
          read_sp_mode_lem loaded (psr_mode c.cpsr) b mode,
        )
        (λ i. record c { lr = lr-loaded i; sp = sp-loaded i })

  -- A context that is loaded is what the exception then returns to.
  pub exception_return-load_context :
      c.pc < 2 ^ 32 → exception_return (context_frame c) (load_context c cpu) ≡ c
  unfolding exception_return context_frame
  exception_return-load_context word =
      let back : add_u32 (sub_u32 c.pc 4) 4 ≡ c.pc = omega arith in
      rw load_context-loaded (
        rw
          (
            read_spsr-loaded,
            read_lr_mode_lem loaded (psr_mode c.cpsr) b mode,
            read_sp_mode_lem loaded (psr_mode c.cpsr) b mode,
          )
          (λ i. record c { pc = back i; lr = lr-loaded i; sp = sp-loaded i }))

-- The thread that `scheduler_run_next` chooses goes on with exactly its saved context.
pub resume_exact :
    (k : Kernel) (t : ThreadPtr) (b : Bank)
    → bank_of_mode (psr_mode (k.threads t).context.cpsr) ≡ some b
    → (k.threads t).context.pc < 2 ^ 32
    → exception_return (scheduler_run_next t k).frame (scheduler_run_next t k).cpu
      ≡ (k.threads t).context
unfolding scheduler_run_next scheduler_replace_irq_context
resume_exact k t b mode word =
    rw (==_refl t) (exception_return-load_context k.cpu (k.threads t).context b mode word)

-- A thread that was interrupted, and whose context nothing changed until it runs again, goes on with
-- the registers that it would have had without the interruption.
preempt_resume :
    (st : ThreadStatus) (k k' : Kernel) (b : Bank)
    → (k'.threads k.running).context ≡ ((scheduler_save_current st k).threads k.running).context
    → bank_of_mode (psr_mode (read_spsr k.cpu)) ≡ some b
    → exception_return (scheduler_run_next k.running k').frame (scheduler_run_next k.running k').cpu
      ≡ exception_return k.frame k.cpu
unfolding scheduler_save_current scheduler_save_thread_context
preempt_resume st k k' b kept mode =
    let saved : (k'.threads k.running).context ≡ scheduler_save_thread_context k.frame k.cpu =
      kept ∙ ground arith in
    resume_exact k' k.running b
      (ap (λ (c : ThreadContext). bank_of_mode (psr_mode c.cpsr)) saved ∙ mode)
      (subst (λ (c : ThreadContext). c.pc < 2 ^ 32) (sym saved) (omega arith))
    ∙ saved
    ∙ save-exception_return k.frame k.cpu

-- A thread that is started goes on with the registers of its context.
pub thread_run-context :
    (t : Thread) (b : Bank) (cpu : Cpu)
    → bank_of_mode (psr_mode t.context.cpsr) ≡ some b
    → (thread_run t cpu).2 ≡ t.context
unfolding thread_run
thread_run-context t b cpu mode =
    ap (thread_run_trampoline t.context) (run-loaded cpu t.context b mode)
    ∙ trampoline-loaded cpu t.context b mode
