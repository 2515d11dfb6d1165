-- ===== src/System/Sleepers.antt =====
-- A thread that sleeps runs again, once its counter has been counted down and its turn has come.
use mathlib.Core.Path.{subst}
use betriebssysteme.Common.{
  ℕ, ◌+◌, ◌-◌, ◌<◌, ◌≤◌, ◌≡◌, ◌≢◌, ◌⊎◌, inl, inr, arith, refl, sym, ap, ◌∙◌, true, ◌∈◌, has, ◌==◌,
  ==_iff, Bool-cases,
}
use betriebssysteme.Common.Words.{test_bit}
use betriebssysteme.Cpu.{cpu_mode_usr, psr_mode, read_spsr}
use betriebssysteme.Handlers.{handle_irq}
use betriebssysteme.Handlers.Counters.{counter-IsKept, counter-due, counter-idle}
use betriebssysteme.Handlers.Kept.{Leaves, svc-Leaves, fault-Leaves}
use betriebssysteme.Thread.{terminated, ThreadPtr, Thread, SavedRegisters, sleeping}
use betriebssysteme.Handlers.User.{arrived, ticked}
use betriebssysteme.Kernel.{Kernel, ok, sleep_queue}
use betriebssysteme.Scheduler.{find_free_thread_id}
use betriebssysteme.Scheduler.Wake.{counter}
use betriebssysteme.Syscalls.{Host}
use betriebssysteme.System.{Exception, interrupt, call, fault, handle, IsAllowed, Reachable}
use betriebssysteme.System.Progress.{
  Trace, stop, user, handled, tick, RunsIn, trace-RunsIn, queued-Stands,
}
use betriebssysteme.System.Reach.{after, final, handled-IsServed, Reachable-IsServed}
use betriebssysteme.System.Rests.{
  Ready, arrive_all-sleep, perform-rests, terminate-sleep, tick-wakes, tick-rests,
}
use betriebssysteme.System.Started.{IsServed-user}
use betriebssysteme.System.Turns.{Comes, Comes-le}
use betriebssysteme.Systick.Period.{is_due}
use betriebssysteme.Uart.{uart_rx}
use betriebssysteme.Uart.Spec.{Inbox, IsServed}

arrived-sleep : (k : Kernel) (i : Inbox) → (arrived k i).queues.sleep ≡ i.queues.sleep
arrived-sleep k i = elim (Bool-cases (test_bit k.uart.mis uart_rx)) [
  | inl e ↦ rw e (arrive_all-sleep k.uart.rx i)
  | inr e ↦ rw e refl
]

module _ (t : ThreadPtr) (k : Kernel) (i : Inbox) (v : IsServed k i) (m : t ∈ i.queues.sleep) where
  sleeper_small : t < 32
  sleeper_small = v.scheduled.queued.rings.items sleep_queue t (omega arith) m

  sleeper_not_running : t ≢ k.running
  sleeper_not_running = ground (
    arith,
    v.scheduled.queued.placed t sleep_queue sleeper_small,
    v.scheduled.runs,
    v.scheduled.same,
  )

  sleeper_alive : (k.threads t).status ≢ terminated
  sleeper_alive =
      ground (arith, v.scheduled.queued.placed t sleep_queue sleeper_small (omega arith))

  still_there : t ∈ (arrived k i).queues.sleep
  still_there = ap (has t) (arrived-sleep k i) ∙ m

  -- An interrupt with a tick makes a sleeper ready or lowers its counter.
  due_next :
      (regs : SavedRegisters) (k' : Kernel)
      → is_due k ≡ true
      → handle_irq regs k ≡ ok tt k'
      → Ready t (ticked k (arrived k i)).queues
        ⊎ ((t ∈ (ticked k (arrived k i)).queues.sleep) × (counter k' t < counter k t))
  due_next regs k' due done =
      let (k2, done2, counters) = counter-due regs k i v due in
      let same : k2 ≡ k' = ap (final k) (sym done2 ∙ done) in
      let fallen : counter k' t ≡ counter k t - 1 =
        subst (λ x. counter x t ≡ counter k t - 1) same (counters t ∙ rw still_there refl) in
      elim (Bool-cases (counter k t == 0)) [
        | inl e ↦ rw due (
            inl (
              tick-wakes t (counter k) (arrived k i).queues still_there
                ((==_iff (counter k t) 0).0 e)))
        | inr e ↦ rw due (
            inr (
              tick-rests t (counter k) (arrived k i).queues still_there (ground arith),
              ground arith,
            ))
      ]

  -- No exception raises its counter or ends its sleep otherwise.
  pub after_next :
      (host : Host) (e : Exception) (regs : SavedRegisters) (k' : Kernel)
      → psr_mode (read_spsr k.cpu) ≡ cpu_mode_usr
      → IsAllowed e regs k
      → handle e host regs k ≡ ok tt k'
      → Ready t (after e regs k i).queues
        ⊎ ((t ∈ (after e regs k i).queues.sleep) × (counter k' t ≤ counter k t))
  after_next host interrupt regs k' mode allowed done = elim (Bool-cases (is_due k)) [
    | inl due ↦ elim (due_next regs k' due done) [
      | inl r ↦ inl r
      | inr p ↦ inr (p.0, omega (arith, p.1))
    ]
    | inr off ↦
        let (k2, done2, counters) = counter-idle regs k i v off in
        let same : k2 ≡ k' = ap (final k) (sym done2 ∙ done) in
        let kept : counter k' t ≡ counter k t =
          subst (λ x. counter x t ≡ counter k t) same (counters t) in
        rw off (inr (still_there, omega (arith, kept)))
  ]
  after_next host call regs k' mode allowed done =
      let kept : counter k' t ≡ counter k t = subst (Leaves (λ x. counter x t) (counter k t)) done (
        svc-Leaves t (λ x. counter x t) (counter-IsKept t) host regs k sleeper_not_running
          sleeper_alive allowed.1 mode) in
      inr (perform-rests t regs.r0 (find_free_thread_id k) i m, omega (arith, kept))
  after_next host (fault f) regs k' mode allowed done =
      let kept : counter k' t ≡ counter k t =
        subst (Leaves (λ x. counter x t) (counter k t)) done
          (fault-Leaves t (λ x. counter x t) (counter-IsKept t) f regs k mode allowed) in
      inr (ap (has t) (terminate-sleep i.queues) ∙ m, omega (arith, kept))

Ready-Comes :
    (t : ThreadPtr) (n : ℕ) (k : Kernel) (i : Inbox)
    → IsServed k i
    → 32 ≤ n
    → Ready t i.queues
    → Comes t n i.queues
Ready-Comes t n k i v h (inl e) = inl e
Ready-Comes t n k i v h (inr m) = Comes-le t 32 n i.queues h (inr (queued-Stands k i t v m))

trace-sleeper :
    (host : Host) (t : ThreadPtr) {n : ℕ} {k k' : Kernel} (r : Trace host n k k') (i : Inbox)
    → IsServed k i
    → t ∈ i.queues.sleep
    → counter k t + 33 ≤ n
    → RunsIn t r
trace-sleeper host t (stop k) i v m h = absurd (omega arith)
trace-sleeper host t (user n k k' k'' s r) i v m h =
    let kept : counter k' t ≡ counter k t =
      ap (λ (f : ThreadPtr → Thread). (f t).sleep_counter) s.threads in
    inr (trace-sleeper host t r i (IsServed-user k k' i s v) m (omega (arith, kept)))
trace-sleeper host t (handled n k k' k'' e regs mode allowed done r) i v m h =
    let v' : IsServed k' (after e regs k i) =
      handled-IsServed host e regs k k' i v mode allowed done in
    elim (after_next t k i v m host e regs k' mode allowed done) [
      | inl p ↦ inr (
          trace-RunsIn host t r (after e regs k i) v'
            (Ready-Comes t n k' (after e regs k i) v' (omega arith) p))
      | inr p ↦ inr (trace-sleeper host t r (after e regs k i) v' p.0 (omega (arith, p.1)))
    ]
trace-sleeper host t (tick n k k' k'' regs mode due done r) i v m h =
    let i' : Inbox = after interrupt regs k i in
    let v' : IsServed k' i' = handled-IsServed host interrupt regs k k' i v mode tt done in
    elim (due_next t k i v m regs k' due done) [
      | inl p ↦ inr (trace-RunsIn host t r i' v' (Ready-Comes t n k' i' v' (omega arith) p))
      | inr p ↦ inr (trace-sleeper host t r i' v' p.0 (omega (arith, p.1)))
    ]

-- From every reachable state a sleeping thread runs before 33 more ticks have passed than its
-- counter says, whatever interrupts, faults and system calls that `IsAllowed` lets pass come
-- between them; creations of a thread whose argument is larger than its stack are left out with
-- the others.
pub sleeper_runs :
    (host : Host) (k k' : Kernel) (t : ThreadPtr)
    → Reachable host k
    → t < 32
    → (k.threads t).status ≡ sleeping
    → (r : Trace host ((k.threads t).sleep_counter + 33) k k') → RunsIn t r
sleeper_runs host k k' t reachable small e r =
    let (i, v) = Reachable-IsServed host reachable in
    let here : t ∈ i.queues.sleep = ground (arith, v.scheduled.queued.placed t sleep_queue small) in
    trace-sleeper host t r i v here (omega arith)
