-- ===== src/System/Turns.antt =====
-- Where a ready thread stands in the run queue of the abstract scheduler, and what each exception does
-- to its place.
use mathlib.Core.List.{append_assoc}
use betriebssysteme.Common.{
  ℕ, zero, suc, ◌%◌, ◌<◌, ◌≤◌, ◌≡◌, ◌⊎◌, inl, inr, arith, refl, ap, ◌∙◌, Option, none, some, List,
  [], ◌∷◌, ◌++◌, ◌==◌, length, Bool-cases,
}
use betriebssysteme.Kernel.{idle_thread}
use betriebssysteme.Scheduler.Arrive.{created}
use betriebssysteme.Scheduler.Spec
use betriebssysteme.Scheduler.Spec.{Queues, dispatch_from, notify_from, due}
use betriebssysteme.Syscalls.Spec.{perform}
use betriebssysteme.Thread.{ThreadPtr}
use betriebssysteme.Uart.Spec.{Inbox, arrive_from, arrive_all, ask_from}

-- Fewer than `n` threads stand before `t` in the run queue.
pub record Stands (t : ThreadPtr) (n : ℕ) (s : Queues) : Type 0 where
  pub before : List ThreadPtr
  pub behind : List ThreadPtr
  pub at : s.run ≡ before ++ t ∷ behind
  pub less : length before < n

-- The thread runs, or stands in the queue.
abbrev pub Comes : ThreadPtr → ℕ → Queues → Type 0
Comes t n s = (s.current ≡ t) ⊎ Stands t n s

pub Comes-le : (t : ThreadPtr) (n m : ℕ) (s : Queues) → n ≤ m → Comes t n s → Comes t m s
Comes-le t n m s h (inl e) = inl e
Comes-le t n m s h (inr p) =
    inr (record { before = p.before; behind = p.behind; at = p.at; less = omega (arith, p.less) })

pub Comes-later : (t : ThreadPtr) (n : ℕ) (s : Queues) → Comes t n s → Comes t (suc n) s
Comes-later t n s c = Comes-le t n (suc n) s (omega arith) c

-- Threads that become ready stand behind it.
Stands-append :
    (t : ThreadPtr) (n : ℕ) (s s' : Queues) (zs : List ThreadPtr)
    → s'.run ≡ s.run ++ zs
    → Stands t n s
    → Stands t n s'
Stands-append t n s s' zs e p = record {
  before = p.before;
  behind = p.behind ++ zs;
  at = e ∙ ap (λ r. r ++ zs) p.at ∙ append_assoc p.before (t ∷ p.behind) zs;
  less = p.less;
}

-- A thread that is dispatched leaves one fewer before it.
dispatch_from-Comes :
    (t : ThreadPtr) (n : ℕ) (r : List ThreadPtr) (s : Queues) (before behind : List ThreadPtr)
    → r ≡ before ++ t ∷ behind
    → length before < suc n
    → Comes t n (dispatch_from r s)
dispatch_from-Comes t n r s [] behind e less = rw e (inl refl)
dispatch_from-Comes t n r s (x ∷ before) behind e less =
    rw e (inr (record { before = before; behind = behind; at = refl; less = omega arith }))

dispatch-Comes :
    (t : ThreadPtr) (n : ℕ) (s : Queues) → Stands t (suc n) s → Comes t n (Spec.dispatch s)
unfolding Spec.dispatch
dispatch-Comes t n s p = dispatch_from-Comes t n s.run s p.before p.behind p.at p.less

-- The same for a change of the other queues before it.
dispatch-Comes_later :
    (t : ThreadPtr) (n : ℕ) (s : Queues) → Stands t n s → Comes t n (Spec.dispatch s)
dispatch-Comes_later t zero s p = absurd (omega (arith, p.less))
dispatch-Comes_later t (suc n) s p = Comes-later t n (Spec.dispatch s) (dispatch-Comes t n s p)

preempt-Comes :
    (t : ThreadPtr) (n : ℕ) (s : Queues) → Stands t (suc n) s → Comes t n (Spec.preempt s)
unfolding Spec.preempt
preempt-Comes t n s p = elim (Bool-cases (s.current == idle_thread)) [
  | inl e ↦ rw e (dispatch-Comes t n s p)
  | inr e ↦ rw e (
      dispatch-Comes t n (record s { run = s.run ++ s.current ∷ [] })
        (Stands-append t (suc n) s (record s { run = s.run ++ s.current ∷ [] }) (s.current ∷ [])
          refl p))
]

-- A tick brings the thread one place nearer.
pub tick-Comes :
    (t : ThreadPtr) (n : ℕ) (counter : ThreadPtr → ℕ) (s : Queues)
    → Stands t (suc n) s
    → Comes t n (Spec.tick counter s)
unfolding Spec.tick Spec.wake
tick-Comes t n counter s p =
    preempt-Comes t n (Spec.wake counter s)
      (Stands-append t (suc n) s (Spec.wake counter s) (due counter s.sleep) refl p)

arrive_from-Stands :
    (t : ThreadPtr) (n : ℕ) (w : List ThreadPtr) (c : ℕ) (i : Inbox)
    → Stands t n i.queues
    → Stands t n (arrive_from w c i).queues
arrive_from-Stands t n [] c i p = p
arrive_from-Stands t n (u ∷ us) c i p =
    Stands-append t n i.queues (arrive_from (u ∷ us) c i).queues (u ∷ []) refl p

pub arrive_all-Stands :
    (t : ThreadPtr) (n : ℕ) (cs : List ℕ) (i : Inbox)
    → Stands t n i.queues
    → Stands t n (arrive_all cs i).queues
unfolding arrive_all
arrive_all-Stands t n [] i p = p
arrive_all-Stands t n (c ∷ cs) i p =
    arrive_all-Stands t n cs (arrive_from i.queues.wait (c % 256) i)
      (arrive_from-Stands t n i.queues.wait (c % 256) i p)

created-Stands :
    (t : ThreadPtr) (n : ℕ) (o : Option ThreadPtr) (s : Queues)
    → Stands t n s
    → Stands t n (created o s)
unfolding Spec.create
created-Stands t n none s p = p
created-Stands t n (some u) s p = Stands-append t n s (created (some u) s) (u ∷ []) refl p

pub terminate-Comes :
    (t : ThreadPtr) (n : ℕ) (s : Queues) → Stands t n s → Comes t n (Spec.terminate s)
unfolding Spec.terminate
terminate-Comes t n s p = dispatch-Comes_later t n s p

-- Any other change of the queues before the next thread is chosen.
other-Comes :
    (t : ThreadPtr) (n : ℕ) (s s' : Queues)
    → s'.run ≡ s.run
    → Stands t n s
    → Comes t n (Spec.dispatch s')
other-Comes t n s s' e p =
    dispatch-Comes_later t n s'
      (record { before = p.before; behind = p.behind; at = e ∙ p.at; less = p.less })

ask_from-Comes :
    (t : ThreadPtr) (n : ℕ) (q : List ℕ) (i : Inbox)
    → Stands t n i.queues
    → Comes t n (ask_from q i).queues
unfolding Spec.wait_current
ask_from-Comes t n [] i p = other-Comes t n i.queues _ refl p
ask_from-Comes t n (c ∷ q) i p = inr p

sleep-Comes : (t : ThreadPtr) (n : ℕ) (s : Queues) → Stands t n s → Comes t n (Spec.sleep_current s)
unfolding Spec.sleep_current
sleep-Comes t n s p = other-Comes t n s _ refl p

-- No system call puts anything before the thread.
pub perform-Comes :
    (t : ThreadPtr) (n number : ℕ) (free : Option ThreadPtr) (i : Inbox)
    → Stands t n i.queues
    → Comes t n (perform number free i).queues
perform-Comes t n number free i p = elim (Bool-cases (number == 1)) [
  | inl a ↦ rw a (inr (created-Stands t n free i.queues p))
  | inr a ↦ elim (Bool-cases (number == 2)) [
    | inl b ↦ rw (a, b) (ask_from-Comes t n i.stored i p)
    | inr b ↦ elim (Bool-cases (number == 3)) [
      | inl c ↦ rw (a, b, c) (inr p)
      | inr c ↦ elim (Bool-cases (number == 4)) [
        | inl d ↦ rw (a, b, c, d) (sleep-Comes t n i.queues p)
        | inr d ↦ rw (a, b, c, d) (terminate-Comes t n i.queues p)
      ]
    ]
  ]
]
