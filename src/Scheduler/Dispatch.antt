-- ===== src/Scheduler/Dispatch.antt =====
-- Choosing the next thread in kernel/threading/scheduler.c, and the operations that end the running
-- thread's turn, against the abstract queues.
use mathlib.Core.Path.{subst}
use betriebssysteme.Common.{◌<◌, ◌≡◌, arith, refl, ap, List, [], ◌∷◌, update, has, inl, inr}
use betriebssysteme.Kernel.{Kernel, run_queue, idle_thread}
use betriebssysteme.LinkedList.{Links, list_remove_}
use betriebssysteme.LinkedList.Remove.{list_remove_first-empty, list_remove_first-cons}
use betriebssysteme.LinkedList.Chain.{Ring}
use betriebssysteme.Scheduler.{
  scheduler_get_next_thread, scheduler_run_next, scheduler_replace_irq_context, run_next_in_queue,
}
use betriebssysteme.Scheduler.Inv.{Queued, IsParked, IsValid, update-run}
use betriebssysteme.Scheduler.Queued.{pop-Queued}
use betriebssysteme.Scheduler.Spec.{Queues, of_head, dispatch, dispatch_from}
use betriebssysteme.Thread.{thread_from_queue, ThreadPtr, running}

module _ (l : Links) where
  pub get_next-empty : Ring l run_queue [] → scheduler_get_next_thread l ≡ (idle_thread, l)
  unfolding scheduler_get_next_thread thread_from_queue
  get_next-empty r = ground (arith, list_remove_first-empty l run_queue r)

  pub get_next-cons :
      (t : ThreadPtr) (ts : List ThreadPtr)
      → Ring l run_queue (t ∷ ts)
      → scheduler_get_next_thread l ≡ (t, list_remove_ t l)
  unfolding scheduler_get_next_thread thread_from_queue
  get_next-cons t ts r = ground (arith, (list_remove_first-cons l run_queue t ts r).0)

-- Without a ready thread the idle thread runs.
run_idle-IsValid :
    (k : Kernel) (s : Queues)
    → IsParked k s
    → IsValid (scheduler_run_next idle_thread k) (record s { current = idle_thread })
unfolding scheduler_run_next scheduler_replace_irq_context
run_idle-IsValid k s p = record {
  queued = record {
    rings = p.queued.rings;
    placed = λ x h small hq. ground (arith, p.queued.placed x h small hq);
  };
  same = refl;
  current = inr refl;
  runs = refl;
  alone = λ x small. ground (arith, p.none_runs x small);
}

-- The first ready thread is taken off the queue and runs.
pub run_first-IsValid :
    (k : Kernel) (s : Queues) (t : ThreadPtr) (ts : List ThreadPtr)
    → IsParked k s
    → s.run ≡ t ∷ ts
    → IsValid
        (scheduler_run_next t (record k { links = list_remove_ t k.links }))
        (record s { run = ts; current = t })
unfolding scheduler_run_next scheduler_replace_irq_context
run_first-IsValid k s t ts p e =
    let small : t < 32 =
      p.queued.rings.items run_queue t (omega arith) (ground (arith, ap (has t) e)) in
    record {
      queued =
          subst
            (λ q.
              Queued (update k.threads t (record (k.threads t) { status = running }))
                (list_remove_ t k.links) q)
            (update-run s ts)
            (pop-Queued k.threads _ k.links (of_head s) t running p.queued (λ x. ground arith)
              run_queue [] ts (omega arith) e refl);
      same = refl;
      current = inl small;
      runs = ground arith;
      alone = λ x lt. ground (arith, p.none_runs x lt);
    }

-- `scheduler_run_next(scheduler_get_next_thread())` does what `dispatch` says.
pub run_next_in_queue-dispatch :
    (k : Kernel) (s : Queues) → IsParked k s → IsValid (run_next_in_queue k) (dispatch s)
unfolding run_next_in_queue dispatch
run_next_in_queue-dispatch k s p = go s.run refl
  where
    go : (r : List ThreadPtr) → s.run ≡ r → IsValid (run_next_in_queue k) (dispatch_from r s)
    go [] e =
        rw
          (get_next-empty k.links
            (subst (λ r. Ring k.links run_queue r) e (p.queued.rings.ring run_queue (omega arith))))
          (run_idle-IsValid k s p)
    go (t ∷ ts) e =
        rw
          (get_next-cons k.links t ts
            (subst (λ r. Ring k.links run_queue r) e (p.queued.rings.ring run_queue (omega arith))))
          (run_first-IsValid k s t ts p e)
