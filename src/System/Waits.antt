-- ===== src/System/Waits.antt =====
-- A thread in the wait queue of the abstract scheduler: only a character takes it out.
use betriebssysteme.Common.{
  ℕ, ◌≡◌, inl, inr, arith, refl, ap, ◌∙◌, Option, none, some, List, [], ◌∷◌, ◌++◌, ◌==◌, ◌∈◌, has,
  has-append, Bool-cases,
}
use betriebssysteme.Kernel.{idle_thread}
use betriebssysteme.Scheduler.Arrive.{created}
use betriebssysteme.Scheduler.Spec
use betriebssysteme.Scheduler.Spec.{Queues, dispatch_from}
use betriebssysteme.Syscalls.Spec.{perform}
use betriebssysteme.Thread.{ThreadPtr}
use betriebssysteme.Uart.Spec.{Inbox, ask_from}

dispatch_from-wait : (r : List ThreadPtr) (s : Queues) → (dispatch_from r s).wait ≡ s.wait
dispatch_from-wait [] s = refl
dispatch_from-wait (t ∷ ts) s = refl

pub dispatch-wait : (s : Queues) → (Spec.dispatch s).wait ≡ s.wait
unfolding Spec.dispatch
dispatch-wait s = dispatch_from-wait s.run s

preempt-wait : (s : Queues) → (Spec.preempt s).wait ≡ s.wait
unfolding Spec.preempt
preempt-wait s = elim (Bool-cases (s.current == idle_thread)) [
  | inl e ↦ rw e (dispatch-wait s)
  | inr e ↦ rw e (dispatch-wait (record s { run = s.run ++ s.current ∷ [] }))
]

pub tick-wait : (counter : ThreadPtr → ℕ) (s : Queues) → (Spec.tick counter s).wait ≡ s.wait
unfolding Spec.tick Spec.wake
tick-wait counter s = preempt-wait (Spec.wake counter s)

pub terminate-wait : (s : Queues) → (Spec.terminate s).wait ≡ s.wait
unfolding Spec.terminate
terminate-wait s = dispatch-wait s

sleep_current-wait : (s : Queues) → (Spec.sleep_current s).wait ≡ s.wait
unfolding Spec.sleep_current
sleep_current-wait s = dispatch-wait _

created-wait : (o : Option ThreadPtr) (s : Queues) → (created o s).wait ≡ s.wait
unfolding Spec.create
created-wait none s = refl
created-wait (some u) s = refl

module _ (t : ThreadPtr) where
  ask_from-waits : (q : List ℕ) (i : Inbox) → t ∈ i.queues.wait → t ∈ (ask_from q i).queues.wait
  unfolding Spec.wait_current
  ask_from-waits [] i m =
      ap (has t) (dispatch-wait _)
      ∙ has-append t i.queues.wait (i.queues.current ∷ [])
      ∙ ground (arith, m)
  ask_from-waits (c ∷ q) i m = m

  -- No system call ends the wait of a thread.
  pub perform-waits :
      (number : ℕ) (free : Option ThreadPtr) (i : Inbox)
      → t ∈ i.queues.wait
      → t ∈ (perform number free i).queues.wait
  perform-waits number free i m = elim (Bool-cases (number == 1)) [
    | inl a ↦ rw (a, created-wait free i.queues) m
    | inr a ↦ elim (Bool-cases (number == 2)) [
      | inl b ↦ rw (a, b) (ask_from-waits i.stored i m)
      | inr b ↦ elim (Bool-cases (number == 3)) [
        | inl c ↦ rw (a, b, c) m
        | inr c ↦ elim (Bool-cases (number == 4)) [
          | inl d ↦ rw (a, b, c, d, sleep_current-wait i.queues) m
          | inr d ↦ rw (a, b, c, d, terminate-wait i.queues) m
        ]
      ]
    ]
  ]
