-- ===== src/System/Reach.antt =====
-- Every state that the kernel reaches from its boot satisfies the invariants of its parts.
use mathlib.Core.Path.{subst}
use betriebssysteme.Common.{◌<◌, ◌≡◌, arith, sym, ap, ◌∙◌, List, [], ◌∈◌}
use betriebssysteme.Cpu.{cpu_mode_usr, psr_mode, read_spsr}
use betriebssysteme.Handlers.User.{ticked, arrived, svc_refines, fault_refines, irq_refines}
use betriebssysteme.Handlers.Call.{Returns}
use betriebssysteme.Kernel.{
  Kernel, Run, ok, halted, undefined, out_of_fuel, run_queue, uart_wait_queue,
}
use betriebssysteme.LinkedList.Chain.{Ring}
use betriebssysteme.RingBuffer.Refine.{contents}
use betriebssysteme.Scheduler.{find_free_thread_id}
use betriebssysteme.Scheduler.Spec
use betriebssysteme.Syscalls.{Host}
use betriebssysteme.Syscalls.Spec.{perform, with_queues}
use betriebssysteme.System.{
  Exception, interrupt, call, fault, handle, IsAllowed, Reachable, booted, user, handled,
}
use betriebssysteme.System.Started.{IsServed-user, main_runs, start_kernel_serves}
use betriebssysteme.Thread.{ready, ThreadPtr, SavedRegisters, running, waiting}
use betriebssysteme.Uart.Spec.{Inbox, IsServed}

-- What an exception comes to for the threads and the characters.
abbrev pub after : Exception → SavedRegisters → Kernel → Inbox → Inbox
after interrupt regs k i = ticked k (arrived k i)
after call regs k i = perform regs.r0 (find_free_thread_id k) i
after (fault f) regs k i = with_queues Spec.terminate i

-- Every exception that a thread in user mode may cause is handled: the handler returns, and keeps the
-- invariant.
pub handle-Returns :
    (host : Host) (e : Exception) (regs : SavedRegisters) (k : Kernel) (i : Inbox)
    → IsServed k i
    → psr_mode (read_spsr k.cpu) ≡ cpu_mode_usr
    → IsAllowed e regs k
    → Returns (handle e host regs k) (after e regs k i)
handle-Returns host interrupt regs k i v mode _ = irq_refines regs k i v
handle-Returns host call regs k i v mode (small, ne, fits) =
    svc_refines host regs k i v (omega (arith, v.scheduled.same)) mode ne fits
handle-Returns host (fault f) regs k i v mode known = fault_refines regs k i v f mode known

abbrev pub final : {A : Type 0} → Kernel → Run A → Kernel
final d (ok _ k) = k
final d (halted k) = d
final d undefined = d
final d out_of_fuel = d

-- The state that an exception leaves is the one that its handler returns with.
pub handled-IsServed :
    (host : Host) (e : Exception) (regs : SavedRegisters) (k k' : Kernel) (i : Inbox)
    → IsServed k i
    → psr_mode (read_spsr k.cpu) ≡ cpu_mode_usr
    → IsAllowed e regs k
    → handle e host regs k ≡ ok tt k'
    → IsServed k' (after e regs k i)
handled-IsServed host e regs k k' i v mode allowed done =
    let (k2, done2, v2) = handle-Returns host e regs k i v mode allowed in
    subst (λ x. IsServed x (after e regs k i)) (ap (final k) (sym done2 ∙ done)) v2

pub Reachable-IsServed : (host : Host) {k : Kernel} → Reachable host k → (i : Inbox) × IsServed k i
Reachable-IsServed host (booted test_kernel k k' start harmless b e done) =
    let (j, k2, up, armed, done2, entry, v) = start_kernel_serves host test_kernel k harmless b e in
    (main_runs, subst (λ x. IsServed x main_runs) (ap (final k) (sym done2 ∙ done)) v)
Reachable-IsServed host (user k k' r st) =
    let (i, v) = Reachable-IsServed host r in (i, IsServed-user k k' i st v)
Reachable-IsServed host (handled k k' e regs r mode allowed done) =
    let (i, v) = Reachable-IsServed host r in
    (after e regs k i, handled-IsServed host e regs k k' i v mode allowed done)

module _ (host : Host) (k : Kernel) (r : Reachable host k) where
  -- From every reachable state each exception in user mode is handled to its end: no handler stops
  -- the kernel or loops, whatever the interrupt, the fault or the number of the system call. Left
  -- out are the call that is meant to stop the kernel, calls of the idle thread, which makes none,
  -- creations of a thread whose argument is larger than its stack, and aborts whose status is the
  -- one behind the table of descriptions.
  pub reachable_returns :
      (e : Exception) (regs : SavedRegisters)
      → psr_mode (read_spsr k.cpu) ≡ cpu_mode_usr
      → IsAllowed e regs k
      → (k' : Kernel) × (handle e host regs k ≡ ok tt k')
  reachable_returns e regs mode allowed =
      let (i, v) = Reachable-IsServed host r in
      let (k', done, v') = handle-Returns host e regs k i v mode allowed in (k', done)

  -- In every reachable state no character is buffered while a thread waits for one. The states are
  -- those reached by exceptions that `IsAllowed` lets pass: no thread has been created with an
  -- argument larger than its stack.
  pub no_lost_wakeup :
      (t : ThreadPtr) → t < 32 → (k.threads t).status ≡ waiting → contents k.uart_ringbuffer ≡ []
  no_lost_wakeup t small e =
      let (i, v) = Reachable-IsServed host r in
      let here : t ∈ i.queues.wait =
        ground (arith, v.scheduled.queued.placed t uart_wait_queue small) in
      v.holds ∙ ground (arith, v.no_lost)

  -- In every reachable state at most one thread of the table runs, and it is `running_thread`.
  one_runs : (t : ThreadPtr) → t < 32 → (k.threads t).status ≡ running → k.running ≡ t
  one_runs t small e =
      let (i, v) = Reachable-IsServed host r in v.scheduled.same ∙ sym (v.scheduled.alone t small e)

  -- In every reachable state a thread that is ready is on the run queue, a correctly linked list.
  -- The states are those reached by exceptions that `IsAllowed` lets pass: no thread has been
  -- created with an argument larger than its stack.
  pub ready_queued :
      (t : ThreadPtr)
      → t < 32
      → (k.threads t).status ≡ ready
      → (q : List ThreadPtr) × Ring k.links run_queue q × (t ∈ q)
  ready_queued t small e =
      let (i, v) = Reachable-IsServed host r in
      (
        i.queues.run,
        v.scheduled.queued.rings.ring run_queue (omega arith),
        ground (arith, v.scheduled.queued.placed t run_queue small),
      )
