-- ===== src/Scheduler/Tick.antt =====
-- scheduler_tick_from_irq of kernel/threading/scheduler.c: preemption, in round robin.
use mathlib.Core.Path.{subst}
use betriebssysteme.Common.{
  ◌<◌, ◌≡◌, ◌≢◌, arith, refl, sym, ap, ◌∙◌, true, false, List, [], ◌∷◌, ◌++◌, ◌==◌, if◌then◌else◌,
  inl, inr, has, ==_of_ne, ==_refl, ==_iff,
}
use betriebssysteme.Kernel.{Kernel, ok, run_queue, idle_thread}
use betriebssysteme.LinkedList.{Links, list_add_last, list_remove_}
use betriebssysteme.LinkedList.Chain.{Ring}
use betriebssysteme.Scheduler.{
  scheduler_get_next_thread, scheduler_run_next, scheduler_save_current, switch_to_next,
  scheduler_tick_from_irq, scheduler_update_sleepers,
}
use betriebssysteme.Scheduler.Inv.{Queued, IsParked, IsValid, update-run}
use betriebssysteme.Scheduler.Queued.{push-Queued, pop-Queued}
use betriebssysteme.Scheduler.Dispatch.{get_next-empty, get_next-cons, run_first-IsValid}
use betriebssysteme.Scheduler.Wake.{counter}
use betriebssysteme.Scheduler.Sleepers.{update_sleepers_refines}
use betriebssysteme.Scheduler.Spec
use betriebssysteme.Scheduler.Spec.{Queues, of_head, dispatch_from, preempt, dispatch}
use betriebssysteme.Thread.{ThreadPtr, Thread, ready, running}

run-Ring :
    (threads : ThreadPtr → Thread) (l : Links) (s : Queues) (r : List ThreadPtr)
    → Queued threads l (of_head s)
    → s.run ≡ r
    → Ring l run_queue r
run-Ring threads l s r q e =
    subst (λ r. Ring l run_queue r) e (q.rings.ring run_queue (omega arith))

-- The lists that the choice of `switch_to_next` starts from.
abbrev offered : Kernel → Links
offered k = if k.running == idle_thread then k.links else list_add_last run_queue k.running k.links

switch_stay :
    (k : Kernel) (l : Links)
    → scheduler_get_next_thread (offered k) ≡ (k.running, l)
    → switch_to_next k ≡ record k { links = l }
unfolding switch_to_next
switch_stay k l e = rw (e, ==_refl k.running)

switch_go :
    (k : Kernel) (t : ThreadPtr) (l : Links)
    → scheduler_get_next_thread (offered k) ≡ (t, l)
    → t ≢ k.running
    → switch_to_next k
      ≡ scheduler_run_next t (scheduler_save_current ready (record k { links = l }))
unfolding switch_to_next
switch_go k t l e ne = rw (e, ==_of_ne t k.running ne)

module _ (k : Kernel) (s : Queues) (v : IsValid k s) where
  -- The idle thread, preempted, is on no queue.
  idle-IsParked : s.current ≡ idle_thread → IsParked (scheduler_save_current ready k) s
  unfolding scheduler_save_current
  idle-IsParked e = record {
    queued = record {
      rings = v.queued.rings;
      placed = λ x h small hq. ground (arith, v.queued.placed x h small hq, v.same);
    };
    none_runs = λ x small. ground (arith, v.alone x small, v.same);
  }

  switch_idle :
      (r : List ThreadPtr)
      → s.current ≡ idle_thread
      → s.run ≡ r
      → IsValid (switch_to_next k) (dispatch_from r s)
  unfolding scheduler_save_current
  switch_idle [] c e =
      let ring : Ring k.links run_queue [] = run-Ring k.threads k.links s [] v.queued e in
      let next : scheduler_get_next_thread (offered k) ≡ (k.running, k.links) =
        ground (arith, v.same, get_next-empty k.links ring) in
      subst (λ k'. IsValid k' (dispatch_from [] s)) (sym (switch_stay k k.links next))
        (subst (λ t. IsValid k (record s { current = t })) c v)
  switch_idle (t ∷ ts) c e =
      let ring : Ring k.links run_queue (t ∷ ts) =
        run-Ring k.threads k.links s (t ∷ ts) v.queued e in
      let next : scheduler_get_next_thread (offered k) ≡ (t, list_remove_ t k.links) =
        ground (arith, v.same, get_next-cons k.links t ts ring) in
      let small : t < 32 =
        v.queued.rings.items run_queue t (omega arith) (ground (arith, ap (has t) e)) in
      subst (λ k'. IsValid k' (dispatch_from (t ∷ ts) s))
        (sym (switch_go k t (list_remove_ t k.links) next (ground (arith, v.same))))
        (run_first-IsValid (scheduler_save_current ready k) s t ts (idle-IsParked c) e)

  module _ (user : s.current < 32) where
    queued_up : Queues
    queued_up = record s { run = s.run ++ s.current ∷ [] }

    links_up : Links
    links_up = list_add_last run_queue k.running k.links

    -- The preempted thread at the end of the run queue.
    user-IsParked :
        IsParked (scheduler_save_current ready (record k { links = links_up })) queued_up
    unfolding scheduler_save_current queued_up links_up
    user-IsParked =
        let k1 : Kernel = scheduler_save_current ready (record k { links = links_up }) in
        record {
          queued =
              subst (λ q. Queued k1.threads k1.links q)
                (update-run s (s.run ++ k.running ∷ [])
                  ∙ ap (λ t. of_head (record s { run = s.run ++ t ∷ [] })) v.same)
                (push-Queued k.threads k1.threads k.links (of_head s) k.running ready v.queued
                  (λ x. ground arith) run_queue (omega arith) (rw v.same user) (rw (v.same, v.runs))
                  refl);
          none_runs = λ x small. ground (arith, v.alone x small, v.same);
        }

    switch_user :
        (r : List ThreadPtr)
        → s.run ≡ r
        → IsValid (switch_to_next k) (dispatch_from (r ++ s.current ∷ []) queued_up)
    unfolding scheduler_save_current queued_up links_up
    switch_user [] e =
        let k1 : Kernel = scheduler_save_current ready (record k { links = links_up }) in
        let up : s.run ++ s.current ∷ [] ≡ s.current ∷ [] = ap (λ r. r ++ s.current ∷ []) e in
        let ring : Ring links_up run_queue (s.current ∷ []) =
          run-Ring k1.threads links_up queued_up _ user-IsParked.queued up in
        let l : Links = list_remove_ s.current links_up in
        let next : scheduler_get_next_thread (offered k) ≡ (k.running, l) =
          ground (arith, v.same, get_next-cons links_up s.current [] ring) in
        subst (λ k'. IsValid k' (record s { run = [] })) (sym (switch_stay k l next))
          (record {
            queued =
                subst (λ q. Queued k.threads l q) (update-run queued_up [])
                  (pop-Queued k1.threads k.threads links_up (of_head queued_up) s.current running
                    user-IsParked.queued (λ x. ground (arith, v.same, v.runs)) run_queue [] []
                    (omega arith) up refl);
            same = v.same;
            current = v.current;
            runs = v.runs;
            alone = v.alone;
          })
    switch_user (t ∷ ts) e =
        let up : s.run ++ s.current ∷ [] ≡ t ∷ (ts ++ s.current ∷ []) =
          ap (λ r. r ++ s.current ∷ []) e in
        let ring : Ring links_up run_queue (t ∷ (ts ++ s.current ∷ [])) =
          run-Ring (scheduler_save_current ready (record k { links = links_up })).threads links_up
            queued_up _ user-IsParked.queued up in
        let next : scheduler_get_next_thread (offered k) ≡ (t, list_remove_ t links_up) =
          ground (arith, v.same, get_next-cons links_up t (ts ++ s.current ∷ []) ring) in
        let off : t ≢ k.running = ground (
          arith,
          v.queued.placed t run_queue,
          ap (has t) e,
          v.runs,
          v.same,
          v.queued.rings.items run_queue t (omega arith),
        ) in
        subst (λ k'. IsValid k' (dispatch_from (t ∷ (ts ++ s.current ∷ [])) queued_up))
          (sym (switch_go k t (list_remove_ t links_up) next off))
          (run_first-IsValid (scheduler_save_current ready (record k { links = links_up }))
            queued_up t (ts ++ s.current ∷ []) user-IsParked up)

  -- The switch at a tick takes the next thread in turn.
  pub switch_refines : IsValid (switch_to_next k) (preempt s)
  unfolding preempt dispatch queued_up
  switch_refines = elim v.current [
    | inl user ↦ rw (==_of_ne s.current idle_thread (omega arith)) (switch_user user s.run refl)
    | inr idle ↦ rw ((==_iff s.current idle_thread).1 idle) (switch_idle s.run idle refl)
  ]

pub tick_step :
    (k k1 : Kernel)
    → k.is_running ≡ true
    → scheduler_update_sleepers k ≡ ok tt k1
    → scheduler_tick_from_irq k ≡ ok tt (switch_to_next k1)
unfolding scheduler_tick_from_irq
tick_step k k1 on done = ground arith

-- A tick wakes the sleepers that are due, puts the running thread at the end of the run queue and
-- gives the processor to the thread at its front. It always returns.
pub tick_refines :
    (k : Kernel) (s : Queues)
    → IsValid k s
    → k.is_running ≡ true
    → (k' : Kernel) × (scheduler_tick_from_irq k ≡ ok tt k') × IsValid k' (Spec.tick (counter k) s)
unfolding Spec.tick
tick_refines k s v on =
    let (k1, done, valid, passed) = update_sleepers_refines k s v in
    (switch_to_next k1, tick_step k k1 on done, switch_refines k1 (Spec.wake (counter k) s) valid)

-- Before the scheduler is started a tick changes nothing.
pub tick_before_start : (k : Kernel) → k.is_running ≡ false → scheduler_tick_from_irq k ≡ ok tt k
unfolding scheduler_tick_from_irq
tick_before_start k off = rw off
