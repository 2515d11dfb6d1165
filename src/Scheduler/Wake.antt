-- ===== src/Scheduler/Wake.antt =====
-- scheduler_update_sleepers of kernel/threading/scheduler.c: one pass over the sleep queue.
use mathlib.Core.Path.{subst}
use betriebssysteme.Common.{
  ℕ, suc, ◌-◌, ◌<◌, ◌≤◌, ◌≡◌, ◌≢◌, arith, refl, ap, true, List, [], ◌∷◌, ◌++◌, ◌==◌, update, has,
  has-append, length, length-append, ==_iff, ==_of_ne,
}
use betriebssysteme.Common.Pigeonhole.{length-le_of_Distinct}
use betriebssysteme.Kernel.{Kernel, ok, run_queue, sleep_queue, set_thread, num_threads}
use betriebssysteme.LinkedList.{Links, list_add_last, list_remove_}
use betriebssysteme.LinkedList.Chain.{Ring, Chain, first_of_or, Chain-split, next-Chain}
use betriebssysteme.LinkedList.Remove.{list_remove-found}
use betriebssysteme.Scheduler.{update_sleeper}
use betriebssysteme.Scheduler.Inv.{Queued, IsValid, update-run, update-sleep}
use betriebssysteme.Scheduler.Queued.{restatus-Queued, push-Queued, pop-Queued}
use betriebssysteme.Scheduler.Spec.{Queues, of_head}
use betriebssysteme.Thread.{ThreadPtr, Thread, terminated, ready, sleeping}

abbrev pub counter : Kernel → ThreadPtr → ℕ
counter k t = (k.threads t).sleep_counter

module _ (k : Kernel) (s : Queues) (v : IsValid k s) where
  pub sleep-Ring : Ring k.links sleep_queue s.sleep
  sleep-Ring = v.queued.rings.ring sleep_queue (omega arith)

  -- No more threads sleep than there are: the loops have fuel enough.
  pub length_sleep : length s.sleep ≤ 32
  length_sleep =
      length-le_of_Distinct 32 s.sleep sleep-Ring.distinct.1
        (λ a. v.queued.rings.items sleep_queue a (omega arith))

  module _ (x : ThreadPtr) (before after : List ThreadPtr)
      (at : s.sleep ≡ before ++ x ∷ after) where
    pub asleep_lt : x < 32
    asleep_lt =
        v.queued.rings.items sleep_queue x (omega arith)
          (ground (arith, ap (has x) at, has-append x before (x ∷ after)))

    asleep : (k.threads x).status ≡ sleeping
    asleep = ground (
      arith,
      v.queued.placed x sleep_queue asleep_lt (omega arith),
      ap (has x) at,
      has-append x before (x ∷ after),
    )

    pub next_asleep : k.links.next x ≡ first_of_or after sleep_queue
    next_asleep =
        next-Chain k.links x after sleep_queue
          (Chain-split k.links sleep_queue before x after sleep_queue
            (subst (λ q. Chain k.links sleep_queue q sleep_queue) at sleep-Ring.chain)).1

    unfoldable pub woken_kernel : Kernel
    woken_kernel =
        let thread : Thread = k.threads x in
        set_thread x (record thread { status = ready })
          (record k { links = list_add_last run_queue x (list_remove_ x k.links) })

    pub update_sleeper-due :
        counter k x ≡ 0 → update_sleeper (suc num_threads) x k ≡ ok tt woken_kernel
    unfolding update_sleeper woken_kernel
    update_sleeper-due e =
        let test : (counter k x == 0) ≡ true = (==_iff (counter k x) 0).1 e in
        rw (
          test,
          (list_remove-found k.links sleep_queue 33 x before after
              (subst (λ q. Ring k.links sleep_queue q) at sleep-Ring)
              (omega (arith, length_sleep, ap length at, length-append before (x ∷ after)))).0,
        )

    pub woken-IsValid :
        IsValid woken_kernel (record s { run = s.run ++ x ∷ []; sleep = before ++ after })
    unfolding woken_kernel
    woken-IsValid =
        let thread : Thread = k.threads x in
        let f : ThreadPtr → Thread = update k.threads x (record thread { status = terminated }) in
        let s1 : Queues = record s { sleep = before ++ after } in
        let l : Links = list_remove_ x k.links in
        let popped : Queued f l (of_head s1) =
          subst (λ q. Queued f l q) (update-sleep s (before ++ after))
            (pop-Queued k.threads f k.links (of_head s) x terminated v.queued (λ y. ground arith)
              sleep_queue before after (omega arith) at refl) in
        record {
          queued =
              subst (λ q. Queued woken_kernel.threads woken_kernel.links q)
                (update-run s1 (s.run ++ x ∷ []))
                (push-Queued f woken_kernel.threads l (of_head s1) x ready popped
                  (λ y. ground arith) run_queue (omega arith) asleep_lt (ground arith) refl);
          same = v.same;
          current = v.current;
          runs = ground (arith, asleep, v.runs);
          alone = λ t small. ground (arith, v.alone t small);
        }

    unfoldable pub counted_kernel : Kernel
    counted_kernel =
        let thread : Thread = k.threads x in
        set_thread x (record thread { sleep_counter = thread.sleep_counter - 1 }) k

    pub update_sleeper-still :
        counter k x ≢ 0 → update_sleeper (suc num_threads) x k ≡ ok tt counted_kernel
    unfolding update_sleeper counted_kernel
    update_sleeper-still ne = rw (==_of_ne (counter k x) 0 ne)

    pub counted-IsValid : IsValid counted_kernel s
    unfolding counted_kernel
    counted-IsValid = record {
      queued =
          restatus-Queued k.threads counted_kernel.threads k.links (of_head s) x sleeping v.queued
            (λ y. ground (arith, asleep)) (rw asleep);
      same = v.same;
      current = v.current;
      runs = ground (arith, v.runs);
      alone = λ t small. ground (arith, v.alone t small);
    }
