-- ===== src/Scheduler/Queued.antt =====
-- Moving a thread onto a queue and off it, and what that does to the invariant.
use mathlib.Core.Path.{subst}
use betriebssysteme.Common.{
  ◌<◌, ◌≡◌, arith, List, [], ◌∷◌, ◌++◌, ◌==◌, if◌then◌else◌, update, has, has-append, has-remove,
  ap,
}
use betriebssysteme.LinkedList.{Ptr, Links, list_add_last, list_remove_}
use betriebssysteme.LinkedList.Chain.{Ring}
use betriebssysteme.LinkedList.Rings.{Rings, add_last-Rings, remove-Rings}
use betriebssysteme.Scheduler.Inv.{home, IsQueue, Queued}
use betriebssysteme.Thread.{ThreadPtr, Thread, ThreadStatus}

-- `g` gives thread `t` the status `st`, and leaves all other statuses.
abbrev pub Restatus :
    (ThreadPtr → Thread) → (ThreadPtr → Thread) → ThreadPtr → ThreadStatus → Type 0
Restatus f g t st = (x : ThreadPtr) → (g x).status ≡ (if t == x then st else (f x).status)

module _ (f g : ThreadPtr → Thread) (l : Links) (q : Ptr → List Ptr) (t : ThreadPtr)
    (st : ThreadStatus) (v : Queued f l q) (c : Restatus f g t st) where
  -- A status that names the same queue, or none like the old one.
  pub restatus-Queued : home st ≡ home (f t).status → Queued g l q
  restatus-Queued e = record {
    rings = v.rings;
    placed = λ x h small hq. ground (arith, v.placed x h small hq, c x);
  }

  -- Off all queues, and then to the end of the queue that the new status names.
  pub push-Queued :
      (h : Ptr)
      → IsQueue h
      → t < 32
      → home (f t).status ≡ 0
      → home st ≡ h
      → Queued g (list_add_last h t l) (update q h (q h ++ t ∷ []))
  push-Queued h hq small off e = record {
    rings =
        add_last-Rings 32 35 l q v.rings h hq t small
          (λ h' hq'. ground (arith, v.placed t h' small hq'));
    placed = λ x h' lt hq'.
        ground (arith, v.placed x h' lt hq', v.placed x h lt hq, c x, has-append x (q h) (t ∷ []));
  }

  -- Off the queue that holds it; the new status names none.
  pub pop-Queued :
      (h : Ptr) (xs ys : List Ptr)
      → IsQueue h
      → q h ≡ xs ++ t ∷ ys
      → home st ≡ 0
      → Queued g (list_remove_ t l) (update q h (xs ++ ys))
  pop-Queued h xs ys hq at e =
      let r : Rings 32 35 (list_remove_ t l) (update q h (xs ++ ys)) =
        remove-Rings 32 35 l q v.rings h hq t xs ys at in
      let own : Ring l h (xs ++ t ∷ ys) = subst (λ k. Ring l h k) at (v.rings.ring h hq) in
      record {
        rings = r;
        placed = λ x h' lt hq'. ground (
          arith,
          has-remove x xs t ys own.distinct.1,
          ap (has x) at,
          ap (has t) at,
          has-append t xs (t ∷ ys),
          v.placed x h' lt hq',
          v.placed x h lt hq,
          c x,
        );
      }
