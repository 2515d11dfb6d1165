-- ===== src/Scheduler/Sleepers.antt =====
-- The whole of scheduler_update_sleepers of kernel/threading/scheduler.c.
use mathlib.Core.Path.{subst, ap₂}
use mathlib.Core.List.{append_assoc, append-nil}
use betriebssysteme.Common.{
  ℕ, zero, suc, ◌-◌, ◌<◌, ◌≡◌, ◌≢◌, arith, refl, sym, ap, ◌∙◌, true, false, List, [], ◌∷◌, ◌++◌,
  ◌==◌, if◌then◌else◌, inl, inr, has, ◌∈◌, ◌∉◌, has-append, has-remove, length, Bool-cases, ==_iff,
  ==_of_ne, Distinct,
}
use betriebssysteme.Kernel.{Kernel, Run, ok, sleep_queue, num_threads}
use betriebssysteme.LinkedList.{list_is_empty}
use betriebssysteme.LinkedList.Chain.{first_of_or, next-Chain}
use betriebssysteme.Scheduler.{update_sleeper, update_sleepers_loop, scheduler_update_sleepers}
use betriebssysteme.Scheduler.Inv.{IsValid}
use betriebssysteme.Scheduler.Contexts.{program}
use betriebssysteme.Scheduler.Wake.{
  counter, sleep-Ring, length_sleep, asleep_lt, next_asleep, woken_kernel, update_sleeper-due,
  woken-IsValid, counted_kernel, update_sleeper-still, counted-IsValid,
}
use betriebssysteme.Scheduler.Spec.{Queues, due, still, wake}
use betriebssysteme.Thread.{ThreadPtr}

-- What the pass over the sleepers `ts` changes besides the queues: their counters, where they are
-- not zero, fall by one.
pub record Passed (k : Kernel) (ts : List ThreadPtr) (k' : Kernel) : Type 0 where
  pub counters :
      (t : ThreadPtr) → counter k' t ≡ (if has t ts then counter k t - 1 else counter k t)
  pub contexts : (t : ThreadPtr) → program k' t ≡ program k t
  pub others : k' ≡ record k { threads = k'.threads; links = k'.links }

-- The outcome of the loop for the sleepers `ts` behind those in `before`, with counters `c`.
abbrev After :
    Kernel → Queues → (ThreadPtr → ℕ) → List ThreadPtr → List ThreadPtr → Run (Unit {0}) → Type 0
After k s c before ts r =
    (k' : Kernel) × (r ≡ ok tt k')
    × IsValid k' (record s { run = s.run ++ due c ts; sleep = before ++ still c ts })
    × Passed k ts k'

not-mem-after : (x : ℕ) (before after : List ℕ) → Distinct (before ++ x ∷ after) → x ∉ after
not-mem-after x before after d =
    ground (arith, has-remove x before x after d, has-append x before after)

loop_end : (fuel : ℕ) (k : Kernel) → update_sleepers_loop (suc fuel) sleep_queue k ≡ ok tt k
unfolding update_sleepers_loop
loop_end fuel k = refl

-- The test for an empty list before the loop changes nothing.
loop_entry :
    (k : Kernel)
    → scheduler_update_sleepers k
      ≡ update_sleepers_loop (suc num_threads) (k.links.next sleep_queue) k
unfolding scheduler_update_sleepers list_is_empty update_sleepers_loop
loop_entry k = ground arith

loop_step :
    (fuel : ℕ) (x : ThreadPtr) (k k1 : Kernel)
    → x < 32
    → update_sleeper (suc num_threads) x k ≡ ok tt k1
    → update_sleepers_loop (suc fuel) x k ≡ update_sleepers_loop fuel (k.links.next x) k1
unfolding update_sleepers_loop
loop_step fuel x k k1 small e = rw (==_of_ne x sleep_queue (omega arith), e)

module _ (k : Kernel) (s : Queues) (v : IsValid k s) (c : ThreadPtr → ℕ) (x : ThreadPtr)
    (before ts : List ThreadPtr) (at : s.sleep ≡ before ++ x ∷ ts) (same : counter k x ≡ c x) where
  alone_in : x ∉ ts
  alone_in = not-mem-after x before ts (subst Distinct at (sleep-Ring k s v).distinct.1)

  After-due :
      (r : Run (Unit {0}))
      → c x ≡ 0
      → After
          (woken_kernel k s v x before ts at)
          (record s { run = s.run ++ x ∷ []; sleep = before ++ ts })
          c
          before
          ts
          r
      → After k s c before (x ∷ ts) r
  unfolding woken_kernel
  After-due r zero_left (k', done, valid, passed) =
      let test : (c x == 0) ≡ true = (==_iff (c x) 0).1 zero_left in
      (
        k',
        done,
        rw test (
            subst (λ q. IsValid k' q)
              (ap (λ a. record s { run = a; sleep = before ++ still c ts })
                (append_assoc s.run (x ∷ []) (due c ts)))
              valid),
        record {
          counters = λ t. ground (arith, passed.counters t, alone_in);
          contexts = λ t. ground (arith, passed.contexts t);
          others = passed.others;
        },
      )

  After-still :
      (r : Run (Unit {0}))
      → c x ≢ 0
      → After (counted_kernel k s v x before ts at) s c (before ++ x ∷ []) ts r
      → After k s c before (x ∷ ts) r
  unfolding counted_kernel
  After-still r ne (k', done, valid, passed) =
      let test : (c x == 0) ≡ false = ==_of_ne (c x) 0 ne in
      (
        k',
        done,
        rw test (
            subst (λ q. IsValid k' q)
              (ap (λ a. record s { run = s.run ++ due c ts; sleep = a })
                (append_assoc before (x ∷ []) (still c ts)))
              valid),
        record {
          counters = λ t. ground (arith, passed.counters t, alone_in);
          contexts = λ t. ground (arith, passed.contexts t);
          others = passed.others;
        },
      )

  due_counters :
      (t : ThreadPtr)
      → t ∈ ts
      → counter k t ≡ c t
      → counter (woken_kernel k s v x before ts at) t ≡ c t
  unfolding woken_kernel
  due_counters t m e = ground (arith, alone_in)

  still_counters :
      (t : ThreadPtr)
      → t ∈ ts
      → counter k t ≡ c t
      → counter (counted_kernel k s v x before ts at) t ≡ c t
  unfolding counted_kernel
  still_counters t m e = ground (arith, alone_in)

loop-After :
    (c : ThreadPtr → ℕ) (ts before : List ThreadPtr) (fuel : ℕ) (k : Kernel) (s : Queues)
    → IsValid k s
    → s.sleep ≡ before ++ ts
    → ((t : ThreadPtr) → t ∈ ts → counter k t ≡ c t)
    → length ts < fuel
    → After k s c before ts (update_sleepers_loop fuel (first_of_or ts sleep_queue) k)
loop-After c ts before zero k s v at same lt = absurd (omega arith)
loop-After c [] before (suc fuel) k s v at same lt = (
  k,
  loop_end fuel k,
  subst (λ q. IsValid k q)
      (ap₂ (λ r l. record s { run = r; sleep = l }) (sym (append-nil s.run)) at) v,
  record { counters = λ t. refl; contexts = λ t. refl; others = refl },
)
loop-After c (x ∷ ts) before (suc fuel) k s v at same lt =
    let small : x < 32 = asleep_lt k s v x before ts at in
    let here : counter k x ≡ c x = same x (ground arith) in
    let next : k.links.next x ≡ first_of_or ts sleep_queue = next_asleep k s v x before ts at in
    elim (Bool-cases (counter k x == 0)) [
      | inl e ↦
          rw
            (
              loop_step fuel x k (woken_kernel k s v x before ts at) small
                  (update_sleeper-due k s v x before ts at (ground arith)),
              next,
            )
            (After-due k s v c x before ts at here _ (ground arith) (
              loop-After c ts before fuel (woken_kernel k s v x before ts at) _
                (woken-IsValid k s v x before ts at) refl
                (λ t m. due_counters k s v c x before ts at here t m (same t (ground arith)))
                (omega arith)))
      | inr e ↦
          rw
            (
              loop_step fuel x k (counted_kernel k s v x before ts at) small
                  (update_sleeper-still k s v x before ts at (ground arith)),
              next,
            )
            (After-still k s v c x before ts at here _ (ground arith) (
              loop-After c ts (before ++ x ∷ []) fuel (counted_kernel k s v x before ts at) s
                (counted-IsValid k s v x before ts at) (at ∙ sym (append_assoc before (x ∷ []) ts))
                (λ t m. still_counters k s v c x before ts at here t m (same t (ground arith)))
                (omega arith)))
    ]

-- One pass moves exactly the sleepers whose counter is zero to the end of the run queue, in order,
-- and counts the others down; it ends with the fuel given.
pub update_sleepers_refines :
    (k : Kernel) (s : Queues)
    → IsValid k s
    → (k' : Kernel) × (scheduler_update_sleepers k ≡ ok tt k')
      × IsValid k' (wake (counter k) s)
      × Passed k s.sleep k'
unfolding wake
update_sleepers_refines k s v =
    rw (loop_entry k, next-Chain k.links sleep_queue s.sleep sleep_queue (sleep-Ring k s v).chain)
      (loop-After (counter k) s.sleep [] (suc num_threads) k s v refl (λ t m. refl)
        (omega (arith, length_sleep k s v)))
