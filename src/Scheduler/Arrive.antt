-- ===== src/Scheduler/Arrive.antt =====
-- Threads that become ready in kernel/threading/scheduler.c: scheduler_thread_create and
-- scheduler_notify_one_from_irq.
use mathlib.Core.Path.{subst}
use betriebssysteme.Common.{
  ℕ, zero, suc, ◌+◌, ◌<◌, ◌≤◌, ◌≡◌, ◌≢◌, arith, refl, ap, Option, none, some, List, [], ◌∷◌, ◌++◌,
  update, inl, inr, has, Bool-cases,
}
use betriebssysteme.Kernel.{Kernel, Run, ok, run_queue, uart_wait_queue, set_thread, num_threads}
use betriebssysteme.LinkedList.{Links, list_add_last, list_remove_}
use betriebssysteme.LinkedList.Chain.{Ring}
use betriebssysteme.LinkedList.Remove.{list_remove_first-empty, list_remove_first-cons}
use betriebssysteme.Scheduler.{
  Result, result_ok, result_error, create_within, notify_thread, find_free_from,
  find_free_thread_id, make_thread, scheduler_notify_one_from_irq, is_terminated, is_running_status,
}
use betriebssysteme.Scheduler.Inv.{Queued, IsParked, IsValid, update-run, update-wait}
use betriebssysteme.Scheduler.Queued.{push-Queued, pop-Queued}
use betriebssysteme.Scheduler.Spec
use betriebssysteme.Scheduler.Spec.{Queues, of_head, notify_from}
use betriebssysteme.Thread.{
  ThreadContext, ThreadPtr, Thread, Layout, init_thread, thread_from_queue, terminated, ready,
  waiting,
}

-- What the search for a free number says: the first one from `id` on, or that there is none.
abbrev pub Free : (ThreadPtr → Thread) → ℕ → ℕ → Option ThreadPtr → Type 0
Free threads id end none = (u : ThreadPtr) → id ≤ u → u < end → (threads u).status ≢ terminated
Free threads id end (some t) =
    (id ≤ t)
    × (t < end)
    × ((threads t).status ≡ terminated)
    × ((u : ThreadPtr) → id ≤ u → u < t → (threads u).status ≢ terminated)

Free-earlier :
    (threads : ThreadPtr → Thread) (id end : ℕ) (o : Option ThreadPtr)
    → (threads id).status ≢ terminated
    → Free threads (id + 1) end o
    → Free threads id end o
Free-earlier threads id end none taken free = λ u lo hi e. ground (arith, free u)
Free-earlier threads id end (some t) taken (lo, hi, is, before) =
    (omega arith, hi, is, λ u low high e. ground (arith, before u))

find_free_from-Free :
    (left id end : ℕ) (threads : ThreadPtr → Thread)
    → id + left ≡ end
    → Free threads id end (find_free_from left id threads)
unfolding find_free_from
find_free_from-Free zero id end threads e = λ u lo hi. absurd (omega arith)
find_free_from-Free (suc left) id end threads e =
    elim (Bool-cases (is_terminated (threads id).status)) [
      | inl free ↦
          rw free (omega arith, omega arith, ground arith, λ u low high. absurd (omega arith))
      | inr taken ↦ rw taken (
          Free-earlier threads id end _ (ground arith)
            (find_free_from-Free left (id + 1) end threads (omega arith)))
    ]

-- The search finds the lowest number of a terminated thread, and fails only if there is none.
pub find_free_thread_id-Free : (k : Kernel) → Free k.threads 0 num_threads (find_free_thread_id k)
unfolding find_free_thread_id
find_free_thread_id-Free k = find_free_from-Free num_threads 0 num_threads k.threads (omega arith)

abbrev pub created : Option ThreadPtr → Queues → Queues
created none s = s
created (some t) s = Spec.create t s

module _ (layout : Layout) (fn arg arg_size : ℕ) (k : Kernel) (s : Queues) (v : IsValid k s) where
  create_at_refines :
      (o : Option ThreadPtr)
      → Free k.threads 0 num_threads o
      → IsValid (create_within layout fn arg arg_size o k) (created o s)
  unfolding create_within Spec.create init_thread
  create_at_refines none free = record {
    queued = v.queued;
    same = v.same;
    current = v.current;
    runs = v.runs;
    alone = v.alone;
  }
  create_at_refines (some t) (lo, small, is, before) =
      let k1 : Kernel = create_within layout fn arg arg_size (some t) k in
      record {
        queued =
            subst (λ q. Queued k1.threads k1.links q) (update-run s (s.run ++ t ∷ []))
              (push-Queued k.threads k1.threads k.links (of_head s) t ready v.queued
                (λ x. ground arith) run_queue (omega arith) small (rw is) refl);
        same = v.same;
        current = v.current;
        runs = ground (arith, v.runs);
        alone = λ x lt. ground (arith, v.alone x lt);
      }

  -- A new thread takes the lowest free number and goes to the end of the run queue; without a free
  -- number the queues stay.
  pub create_refines :
      IsValid (make_thread layout fn arg arg_size k) (created (find_free_thread_id k) s)
  unfolding make_thread
  create_refines = create_at_refines (find_free_thread_id k) (find_free_thread_id-Free k)

-- The same before any thread runs, as at boot.
pub create-IsParked :
    (layout : Layout) (fn arg arg_size : ℕ) (k : Kernel) (s : Queues) (t : ThreadPtr)
    → IsParked k s
    → find_free_thread_id k ≡ some t
    → IsParked (make_thread layout fn arg arg_size k) (Spec.create t s)
unfolding make_thread create_within Spec.create init_thread
create-IsParked layout fn arg arg_size k s t p e =
    let k1 : Kernel = create_within layout fn arg arg_size (some t) k in
    let free : Free k.threads 0 num_threads (some t) =
      subst (λ o. Free k.threads 0 num_threads o) e (find_free_thread_id-Free k) in
    rw e (record {
      queued =
          subst (λ q. Queued k1.threads k1.links q) (update-run s (s.run ++ t ∷ []))
            (push-Queued k.threads k1.threads k.links (of_head s) t ready p.queued
              (λ x. ground arith) run_queue (omega arith) free.1 (rw free.2) refl);
      none_runs = λ x lt. ground (arith, p.none_runs x lt);
    })

-- A thread that is ready and finds `value` in `r0`.
abbrev pub with_value : ℕ → Thread → Thread
with_value value thread =
    let context : ThreadContext = thread.context in
    record thread { context = record context { r0 = value }; status = ready }

-- The outcome of a notification when the threads in the list wait.
abbrev pub Notified : Kernel → Queues → ℕ → List ThreadPtr → Run Result → Type 0
Notified k s value [] r = r ≡ ok result_error k
Notified k s value (t ∷ ts) r =
    (k' : Kernel) × (r ≡ ok result_ok k')
    × IsValid k' (notify_from (t ∷ ts) s).1
    × (k' ≡ record k {
      threads = update k.threads t (with_value value (k.threads t));
      links = k'.links;
    })

module _ (k : Kernel) (s : Queues) (v : IsValid k s) (value : ℕ) where
  wait-Ring : (r : List ThreadPtr) → s.wait ≡ r → Ring k.links uart_wait_queue r
  wait-Ring r e =
      subst (λ r. Ring k.links uart_wait_queue r) e
        (v.queued.rings.ring uart_wait_queue (omega arith))

  module _ (t : ThreadPtr) (ts : List ThreadPtr) (at : s.wait ≡ t ∷ ts) where
    waits_lt : t < 32
    waits_lt = v.queued.rings.items uart_wait_queue t (omega arith) (ground (arith, ap (has t) at))

    waits : (k.threads t).status ≡ waiting
    waits = ground (arith, v.queued.placed t uart_wait_queue waits_lt (omega arith), ap (has t) at)

    notified : Kernel
    notified =
        let thread : Thread = k.threads t in
        let context : ThreadContext = thread.context in
        set_thread t (record thread { context = record context { r0 = value }; status = ready })
          (record k { links = list_add_last run_queue t (list_remove_ t k.links) })

    notified-IsValid : IsValid notified (record s { wait = ts; run = s.run ++ t ∷ [] })
    unfolding notified
    notified-IsValid =
        let thread : Thread = k.threads t in
        let f : ThreadPtr → Thread = update k.threads t (record thread { status = terminated }) in
        let s1 : Queues = record s { wait = ts } in
        let l : Links = list_remove_ t k.links in
        let popped : Queued f l (of_head s1) =
          subst (λ q. Queued f l q) (update-wait s ts)
            (pop-Queued k.threads f k.links (of_head s) t terminated v.queued (λ y. ground arith)
              uart_wait_queue [] ts (omega arith) at refl) in
        record {
          queued =
              subst (λ q. Queued notified.threads notified.links q)
                (update-run s1 (s.run ++ t ∷ []))
                (push-Queued f notified.threads l (of_head s1) t ready popped (λ y. ground arith)
                  run_queue (omega arith) waits_lt (ground arith) refl);
          same = v.same;
          current = v.current;
          runs = ground (arith, waits, v.runs);
          alone = λ x small. ground (arith, v.alone x small);
        }

    notify-done : scheduler_notify_one_from_irq uart_wait_queue value k ≡ ok result_ok notified
    unfolding scheduler_notify_one_from_irq notify_thread thread_from_queue notified
    notify-done = rw (
      (list_remove_first-cons k.links uart_wait_queue t ts (wait-Ring (t ∷ ts) at)).0,
      ap is_running_status waits,
    )

  notify-empty :
      s.wait ≡ [] → scheduler_notify_one_from_irq uart_wait_queue value k ≡ ok result_error k
  unfolding scheduler_notify_one_from_irq notify_thread thread_from_queue
  notify-empty e = rw (list_remove_first-empty k.links uart_wait_queue (wait-Ring [] e))

  -- Without a waiting thread a notification fails and changes nothing. Else the thread that waits
  -- longest gets the value in its `r0` and goes to the end of the run queue, and no other thread is
  -- changed; the check that would stop the kernel never fires.
  pub notify_refines :
      Notified k s value s.wait (scheduler_notify_one_from_irq uart_wait_queue value k)
  unfolding notified
  notify_refines = go s.wait refl
    where
      go :
          (r : List ThreadPtr)
          → s.wait ≡ r
          → Notified k s value r (scheduler_notify_one_from_irq uart_wait_queue value k)
      go [] e = notify-empty e
      go (t ∷ ts) e = (notified t ts e, notify-done t ts e, notified-IsValid t ts e, refl)
