-- ===== src/System/Resume/Calls.antt =====
-- What a thread that went to sleep goes on with, and one that has been created.
use mathlib.Core.Path.{subst}
use betriebssysteme.Common.{
  ℕ, ◌<◌, ◌≤◌, ◌^◌, ◌≡◌, inl, inr, arith, refl, sym, ap, ◌∙◌, some, [], ◌∷◌, has, has-append,
  ==_iff,
}
use betriebssysteme.Cpu.{cpu_mode_usr, psr_mode, read_spsr, bank_of_mode}
use betriebssysteme.Handlers.{handle_svc}
use betriebssysteme.Handlers.Effects.{create-Created}
use betriebssysteme.Kernel.{Kernel, ok}
use betriebssysteme.Scheduler.Create.{thread_create-fits}
use betriebssysteme.Scheduler.{
  scheduler_begin_exception, get_current_thread_fn, run_thread_entry,
  scheduler_sleep_running_from_irq, find_free_thread_id, create_within, make_thread,
  scheduler_thread_create,
}
use betriebssysteme.Scheduler.Contexts.{context}
use betriebssysteme.Scheduler.Start.{first_registers}
use betriebssysteme.Scheduler.Spec
use betriebssysteme.Scheduler.Spec.{Queues}
use betriebssysteme.Syscalls.{Host, handle_syscall, svc_handlers, sys_sleep, sys_create_thread}
use betriebssysteme.System.{
  Exception, call, handle, IsAllowed, Reachable, return_from, but_banked, returns_from,
  but_banked-sp,
}
use betriebssysteme.System.Preserved.{Off}
use betriebssysteme.System.Progress.{Trace, RunsIn}
use betriebssysteme.System.Reach.{after, final, handled-IsServed, Reachable-IsServed}
use betriebssysteme.Thread.{
  ThreadPtr, ThreadContext, SavedRegisters, exception_return, initial_sp, thread_stack_size,
}
use betriebssysteme.Uart.Spec.{Inbox, IsServed}
use betriebssysteme.System.Resume.{Off-resumes, Off-fn, interrupted-IsUserContext}
use betriebssysteme.System.Rests.{dispatch-sleep}
use betriebssysteme.Scheduler.Loads.{sleep-saved}
use betriebssysteme.Syscalls.Spec.{perform}

pub sleep_done :
    (host : Host) (regs : SavedRegisters) (k : Kernel)
    → psr_mode (read_spsr k.cpu) ≡ cpu_mode_usr
    → regs.r0 ≡ 4
    → handle_svc host regs k
      ≡ ok tt (scheduler_sleep_running_from_irq regs.r1 (scheduler_begin_exception regs k))
unfolding handle_svc handle_syscall svc_handlers sys_sleep scheduler_begin_exception
sleep_done host regs k mode e = rw ((==_iff _ _).1 mode, e) refl

sleep-Off : (free : _) (i : Inbox) (n : ℕ) → n ≡ 4 → Off i.queues.current (perform n free i).queues
unfolding Spec.sleep_current
sleep-Off free i n e = rw e (
    inr (
      ap (has i.queues.current) (dispatch-sleep _)
      ∙ has-append i.queues.current i.queues.sleep (i.queues.current ∷ [])
      ∙ ground arith))

-- A thread that calls `sys_sleep` goes on behind the call with the registers that it made it with,
-- whenever an exception gives it the processor again, whatever exceptions that `IsAllowed` lets
-- pass have come in between. Behind a FIQ, whose mode has `r8` to `r12` of its own, these five are
-- those of the program that it interrupted.
pub sleeper_resumes :
    (host : Host) (n : ℕ) (k k1 k2 k3 : Kernel) (regs : SavedRegisters)
    → Reachable host k
    → psr_mode (read_spsr k.cpu) ≡ cpu_mode_usr
    → k.running < 32
    → regs.r0 ≡ 4
    → handle_svc host regs k ≡ ok tt k1
    → (r : Trace host n k1 k2) → (RunsIn k.running r → ⊥)
    → (e : Exception) (regs' interrupted : SavedRegisters)
    → psr_mode (read_spsr k2.cpu) ≡ cpu_mode_usr
    → IsAllowed e regs' k2
    → handle e host regs' k2 ≡ ok tt k3
    → k3.running ≡ k.running
    → return_from e interrupted k3.frame k3.cpu
      ≡ but_banked e interrupted (exception_return regs k.cpu)
unfolding scheduler_begin_exception
sleeper_resumes host n k k1 k2 k3 regs reachable mode user four done r never e regs' interrupted
      mode' allowed done' turn =
    let (i, v) = Reachable-IsServed host reachable in
    let v1 : IsServed k1 (after call regs k i) =
      handled-IsServed host call regs k k1 i v mode (user, omega arith, λ e. omega arith) done in
    let same : scheduler_sleep_running_from_irq regs.r1 (scheduler_begin_exception regs k) ≡ k1 =
      ap (final k) (sym (sleep_done host regs k mode four) ∙ done) in
    let saved : context k1 k.running ≡ exception_return regs k.cpu =
      subst (λ x. context x k.running ≡ exception_return regs k.cpu) same
        (sleep-saved regs.r1 (scheduler_begin_exception regs k)) in
    let off : Off k.running (after call regs k i).queues =
      subst (λ t. Off t (after call regs k i).queues) (sym v.scheduled.same)
        (sleep-Off (find_free_thread_id k) i regs.r0 four) in
    returns_from e interrupted k3.frame k3.cpu (exception_return regs k.cpu) (
      Off-resumes host k.running n k1 k2 k3 r never e regs' mode' allowed done' turn
        (after call regs k i) (exception_return regs k.cpu) v1 off saved
        (interrupted-IsUserContext regs k.cpu mode))

svc_creates :
    (host : Host) (regs : SavedRegisters) (k : Kernel)
    → psr_mode (read_spsr k.cpu) ≡ cpu_mode_usr
    → regs.r0 ≡ 1
    → handle_svc host regs k
      ≡ scheduler_thread_create host.layout regs.r1 regs.r2 regs.r3
          (scheduler_begin_exception regs k)
unfolding handle_svc handle_syscall svc_handlers sys_create_thread scheduler_begin_exception
svc_creates host regs k mode e = rw ((==_iff _ _).1 mode, e) refl

pub svc_makes :
    (host : Host) (regs : SavedRegisters) (k : Kernel)
    → psr_mode (read_spsr k.cpu) ≡ cpu_mode_usr
    → regs.r0 ≡ 1
    → regs.r3 ≤ thread_stack_size
    → handle_svc host regs k
      ≡ ok tt (make_thread host.layout regs.r1 regs.r2 regs.r3 (scheduler_begin_exception regs k))
svc_makes host regs k mode e fits =
    svc_creates host regs k mode e
    ∙ thread_create-fits host.layout regs.r1 regs.r2 regs.r3 (scheduler_begin_exception regs k) fits

pub create_done :
    (host : Host) (regs : SavedRegisters) (k : Kernel) (t : ThreadPtr)
    → psr_mode (read_spsr k.cpu) ≡ cpu_mode_usr
    → regs.r0 ≡ 1
    → find_free_thread_id k ≡ some t
    → regs.r3 ≤ thread_stack_size
    → handle_svc host regs k
      ≡ ok tt (
          create_within host.layout regs.r1 regs.r2 regs.r3
            (some t)
            (scheduler_begin_exception regs k))
unfolding scheduler_begin_exception make_thread find_free_thread_id
create_done host regs k t mode e free fits =
    svc_makes host regs k mode e fits
    ∙ ap
        (λ o.
          ok tt (
            create_within host.layout regs.r1 regs.r2 regs.r3 o (scheduler_begin_exception regs k)))
        free

create-Off : (t : ThreadPtr) (i : Inbox) (n : ℕ) → n ≡ 1 → Off t (perform n (some t) i).queues
unfolding Spec.create
create-Off t i n e = rw e (inl (has-append t i.queues.run (t ∷ []) ∙ ground arith))

-- A thread that `sys_create_thread` creates with an argument that fits its stack starts, when an
-- exception first gives it the processor, in user mode at the entry of all threads, with its own
-- stack pointer and the other registers zero, whatever exceptions that `IsAllowed` lets pass have
-- come in between; and from there it calls the function of the call, with the address of the
-- argument's copy on its stack. Behind a FIQ, whose mode has `r8` to `r12` of its own, these five
-- are those of the program that it interrupted.
pub created_starts :
    (host : Host) (n : ℕ) (k k1 k2 k3 : Kernel) (regs : SavedRegisters) (t : ThreadPtr)
    → host.layout.thread_entry < 2 ^ 32
    → Reachable host k
    → psr_mode (read_spsr k.cpu) ≡ cpu_mode_usr
    → k.running < 32
    → regs.r0 ≡ 1
    → find_free_thread_id k ≡ some t
    → regs.r3 ≤ thread_stack_size
    → handle_svc host regs k ≡ ok tt k1
    → (r : Trace host n k1 k2) → (RunsIn t r → ⊥)
    → (e : Exception) (regs' interrupted : SavedRegisters)
    → psr_mode (read_spsr k2.cpu) ≡ cpu_mode_usr
    → IsAllowed e regs' k2
    → handle e host regs' k2 ≡ ok tt k3
    → k3.running ≡ t
    → (return_from e interrupted k3.frame k3.cpu
        ≡ but_banked e interrupted (first_registers host.layout t regs.r3))
      × (run_thread_entry k3 (return_from e interrupted k3.frame k3.cpu)
          ≡ (regs.r1, initial_sp (host.layout.stack t) regs.r3))
unfolding bank_of_mode run_thread_entry
created_starts host n k k1 k2 k3 regs t word reachable mode user one free fits done r never e regs'
      interrupted mode' allowed done' turn =
    let (i, v) = Reachable-IsServed host reachable in
    let v1 : IsServed k1 (after call regs k i) =
      handled-IsServed host call regs k k1 i v mode (user, omega arith, λ e. fits) done in
    let made : Kernel =
      create_within host.layout regs.r1 regs.r2 regs.r3 (some t)
        (scheduler_begin_exception regs k) in
    let same : made ≡ k1 =
      ap (final k) (sym (create_done host regs k t mode one free fits) ∙ done) in
    let saved : context k1 t ≡ first_registers host.layout t regs.r3 =
      subst (λ x. context x t ≡ first_registers host.layout t regs.r3) same
        (create-Created host.layout regs (some t) (scheduler_begin_exception regs k)).0 in
    let off : Off t (after call regs k i).queues = rw free (create-Off t i regs.r0 one) in
    let first : ThreadContext = first_registers host.layout t regs.r3 in
    let start : return_from e interrupted k3.frame k3.cpu ≡ but_banked e interrupted first =
      returns_from e interrupted k3.frame k3.cpu first (
        Off-resumes host t n k1 k2 k3 r never e regs' mode' allowed done' turn (after call regs k i)
          first v1 off saved (record { mode = refl; word = word })) in
    let fn : get_current_thread_fn k3 ≡ regs.r1 =
      Off-fn host t n k1 k2 k3 r never e regs' mode' allowed done' turn (after call regs k i) v1 off
      ∙ ap (λ (x : Kernel). (x.threads t).fn) (sym same)
      ∙ (create-Created host.layout regs (some t) (scheduler_begin_exception regs k)).1 in
    (
      start,
      ap (λ x. (x, (return_from e interrupted k3.frame k3.cpu).sp)) fn
          ∙ ap (λ (c : ThreadContext). (regs.r1, c.sp)) start
          ∙ ap (λ a. (regs.r1, a)) (but_banked-sp e interrupted first),
    )
