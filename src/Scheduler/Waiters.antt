-- ===== src/Scheduler/Waiters.antt =====
-- The queue of waiting threads in the abstract scheduler of kernel/threading/scheduler.c.
use betriebssysteme.Common.{ℕ, ◌≡◌, refl, List, [], ◌∷◌, ◌++◌, ◌==◌, inl, inr, Bool-cases}
use betriebssysteme.Kernel.{idle_thread}
use betriebssysteme.Scheduler.Spec.{Queues, dispatch, dispatch_from, preempt, wake, tick}
use betriebssysteme.Thread.{ThreadPtr}

dispatch_from-wait : (r : List ThreadPtr) (s : Queues) → (dispatch_from r s).wait ≡ s.wait
dispatch_from-wait [] s = refl
dispatch_from-wait (t ∷ ts) s = refl

pub dispatch-wait : (s : Queues) → (dispatch s).wait ≡ s.wait
unfolding dispatch
dispatch-wait s = dispatch_from-wait s.run s

pub preempt-wait : (s : Queues) → (preempt s).wait ≡ s.wait
unfolding preempt
preempt-wait s = elim (Bool-cases (s.current == idle_thread)) [
  | inl e ↦ rw e (dispatch-wait s)
  | inr e ↦ rw e (dispatch-wait (record s { run = s.run ++ s.current ∷ [] }))
]

pub tick-wait : (counter : ThreadPtr → ℕ) (s : Queues) → (tick counter s).wait ≡ s.wait
unfolding tick wake
tick-wait counter s = preempt-wait (wake counter s)
