-- ===== src/System/Rests.antt =====
-- A thread in the sleep queue of the abstract scheduler, and what each exception does to its place.
use betriebssysteme.Common.{
  ℕ, ◌%◌, ◌≡◌, ◌≢◌, ◌⊎◌, inl, inr, arith, refl, sym, ap, ◌∙◌, Option, none, some, List, [], ◌∷◌,
  ◌++◌, ◌==◌, ◌∈◌, has, has-append, Bool-cases, true, false, ==_iff, ==_of_ne,
}
use betriebssysteme.Kernel.{idle_thread}
use betriebssysteme.Scheduler.Arrive.{created}
use betriebssysteme.Scheduler.Spec
use betriebssysteme.Scheduler.Spec.{Queues, dispatch_from, due, still}
use betriebssysteme.Syscalls.Spec.{perform}
use betriebssysteme.Thread.{ThreadPtr}
use betriebssysteme.Uart.Spec.{Inbox, arrive_from, arrive_all, ask_from}

arrive_from-sleep :
    (w : List ThreadPtr) (c : ℕ) (i : Inbox) → (arrive_from w c i).queues.sleep ≡ i.queues.sleep
arrive_from-sleep [] c i = refl
arrive_from-sleep (t ∷ ts) c i = refl

pub arrive_all-sleep : (cs : List ℕ) (i : Inbox) → (arrive_all cs i).queues.sleep ≡ i.queues.sleep
unfolding arrive_all
arrive_all-sleep [] i = refl
arrive_all-sleep (c ∷ cs) i =
    arrive_all-sleep cs (arrive_from i.queues.wait (c % 256) i)
    ∙ arrive_from-sleep i.queues.wait (c % 256) i

dispatch_from-sleep : (r : List ThreadPtr) (s : Queues) → (dispatch_from r s).sleep ≡ s.sleep
dispatch_from-sleep [] s = refl
dispatch_from-sleep (t ∷ ts) s = refl

pub dispatch-sleep : (s : Queues) → (Spec.dispatch s).sleep ≡ s.sleep
unfolding Spec.dispatch
dispatch-sleep s = dispatch_from-sleep s.run s

preempt-sleep : (s : Queues) → (Spec.preempt s).sleep ≡ s.sleep
unfolding Spec.preempt
preempt-sleep s = elim (Bool-cases (s.current == idle_thread)) [
  | inl e ↦ rw e (dispatch-sleep s)
  | inr e ↦ rw e (dispatch-sleep (record s { run = s.run ++ s.current ∷ [] }))
]

pub terminate-sleep : (s : Queues) → (Spec.terminate s).sleep ≡ s.sleep
unfolding Spec.terminate
terminate-sleep s = dispatch-sleep s

created-sleep : (o : Option ThreadPtr) (s : Queues) → (created o s).sleep ≡ s.sleep
unfolding Spec.create
created-sleep none s = refl
created-sleep (some u) s = refl

ask_from-sleep : (q : List ℕ) (i : Inbox) → (ask_from q i).queues.sleep ≡ i.queues.sleep
unfolding Spec.wait_current
ask_from-sleep [] i = dispatch-sleep _
ask_from-sleep (c ∷ q) i = refl

module _ (t : ThreadPtr) where
  sleep_current-rests : (s : Queues) → t ∈ s.sleep → t ∈ (Spec.sleep_current s).sleep
  unfolding Spec.sleep_current
  sleep_current-rests s m =
      ap (has t) (dispatch-sleep _) ∙ has-append t s.sleep (s.current ∷ []) ∙ ground (arith, m)

  -- No system call wakes a sleeper.
  pub perform-rests :
      (number : ℕ) (free : Option ThreadPtr) (i : Inbox)
      → t ∈ i.queues.sleep
      → t ∈ (perform number free i).queues.sleep
  perform-rests number free i m = elim (Bool-cases (number == 1)) [
    | inl a ↦ rw (a, created-sleep free i.queues) m
    | inr a ↦ elim (Bool-cases (number == 2)) [
      | inl b ↦ rw (a, b, ask_from-sleep i.stored i) m
      | inr b ↦ elim (Bool-cases (number == 3)) [
        | inl c ↦ rw (a, b, c) m
        | inr c ↦ elim (Bool-cases (number == 4)) [
          | inl d ↦ rw (a, b, c, d) (sleep_current-rests i.queues m)
          | inr d ↦ rw (a, b, c, d, terminate-sleep i.queues) m
        ]
      ]
    ]
  ]

  -- The thread runs, or is in the run queue.
  abbrev pub Ready : Queues → Type 0
  Ready s = (s.current ≡ t) ⊎ (t ∈ s.run)

  dispatch_from-Ready : (r : List ThreadPtr) (s : Queues) → t ∈ r → Ready (dispatch_from r s)
  dispatch_from-Ready [] s m = ground arith
  dispatch_from-Ready (u ∷ us) s m = elim (Bool-cases (t == u)) [
    | inl e ↦ inl (ground arith)
    | inr e ↦ inr (ground arith)
  ]

  pub dispatch-Ready : (s : Queues) → t ∈ s.run → Ready (Spec.dispatch s)
  unfolding Spec.dispatch
  dispatch-Ready s m = dispatch_from-Ready s.run s m

  preempt-Ready : (s : Queues) → t ∈ s.run → Ready (Spec.preempt s)
  unfolding Spec.preempt
  preempt-Ready s m = elim (Bool-cases (s.current == idle_thread)) [
    | inl e ↦ rw e (dispatch-Ready s m)
    | inr e ↦ rw e (
        dispatch-Ready (record s { run = s.run ++ s.current ∷ [] })
          (has-append t s.run (s.current ∷ []) ∙ ground (arith, m)))
  ]

  due-has :
      (counter : ThreadPtr → ℕ) (ts : List ThreadPtr) → t ∈ ts → counter t ≡ 0 → t ∈ due counter ts
  due-has counter [] m e = m
  due-has counter (u ∷ us) m e = elim (Bool-cases (t == u)) [
    | inl same ↦
        let zero_u : (counter u == 0) ≡ true =
          (==_iff (counter u) 0).1 (ap counter (sym ((==_iff t u).0 same)) ∙ e) in
        rw zero_u (ground arith)
    | inr other ↦ ground (arith, due-has counter us)
  ]

  still-has :
      (counter : ThreadPtr → ℕ) (ts : List ThreadPtr)
      → t ∈ ts
      → counter t ≢ 0
      → t ∈ still counter ts
  still-has counter [] m e = m
  still-has counter (u ∷ us) m e = elim (Bool-cases (t == u)) [
    | inl same ↦
        let some_u : (counter u == 0) ≡ false =
          ==_of_ne (counter u) 0 (λ z. e (ap counter ((==_iff t u).0 same) ∙ z)) in
        rw some_u (ground arith)
    | inr other ↦ ground (arith, still-has counter us)
  ]

  -- A tick wakes a sleeper whose counter is zero, and no other.
  pub tick-wakes :
      (counter : ThreadPtr → ℕ) (s : Queues)
      → t ∈ s.sleep
      → counter t ≡ 0
      → Ready (Spec.tick counter s)
  unfolding Spec.tick Spec.wake
  tick-wakes counter s m e =
      preempt-Ready (Spec.wake counter s)
        (has-append t s.run (due counter s.sleep) ∙ ground (arith, due-has counter s.sleep m e))

  pub tick-rests :
      (counter : ThreadPtr → ℕ) (s : Queues)
      → t ∈ s.sleep
      → counter t ≢ 0
      → t ∈ (Spec.tick counter s).sleep
  unfolding Spec.tick Spec.wake
  tick-rests counter s m e =
      ap (has t) (preempt-sleep (Spec.wake counter s)) ∙ still-has counter s.sleep m e

  -- A tick keeps a ready thread ready, or lets it run.
  pub tick-Ready : (counter : ThreadPtr → ℕ) (s : Queues) → t ∈ s.run → Ready (Spec.tick counter s)
  unfolding Spec.tick Spec.wake
  tick-Ready counter s m =
      preempt-Ready (Spec.wake counter s)
        (has-append t s.run (due counter s.sleep) ∙ ground (arith, m))
