-- ===== src/Scheduler/Turn.antt =====
-- The operations of kernel/threading/scheduler.c that end the running thread's turn for good or
-- until an event: they keep the invariant, and move the threads as the specification says.
use mathlib.Core.Path.{subst}
use betriebssysteme.Common.{ℕ, ◌<◌, ◌≡◌, arith, refl, ap, ◌∙◌, [], ◌∷◌, ◌++◌}
use betriebssysteme.Kernel.{Kernel, sleep_queue, uart_wait_queue, set_thread}
use betriebssysteme.LinkedList.{list_add_last}
use betriebssysteme.Scheduler.{
  scheduler_thread_terminate_running_from_irq, scheduler_sleep_running_from_irq,
  scheduler_wait_running_from_irq, scheduler_save_current,
}
use betriebssysteme.Scheduler.Inv.{Queued, IsValid, update-sleep, update-wait}
use betriebssysteme.Scheduler.Queued.{restatus-Queued, push-Queued}
use betriebssysteme.Scheduler.Dispatch.{run_next_in_queue-dispatch}
use betriebssysteme.Scheduler.Spec
use betriebssysteme.Scheduler.Spec.{Queues, of_head}
use betriebssysteme.Thread.{Thread, terminated, running, waiting, sleeping}

module _ (k : Kernel) (s : Queues) (v : IsValid k s) where
  runs_here : (k.threads k.running).status ≡ running
  runs_here = rw v.same v.runs

  -- The running thread ends, and the next ready thread runs.
  pub terminate_refines : IsValid (scheduler_thread_terminate_running_from_irq k) (Spec.terminate s)
  unfolding scheduler_thread_terminate_running_from_irq Spec.terminate
  terminate_refines = run_next_in_queue-dispatch _ s (record {
    queued =
        restatus-Queued k.threads _ k.links (of_head s) k.running terminated v.queued
          (λ x. ground arith) (rw runs_here);
    none_runs = λ x small. ground (arith, v.alone x small, v.same);
  })

  module _ (user : s.current < 32) where
    user_here : k.running < 32
    user_here = rw v.same user

    -- A running user thread goes to the end of the sleep queue, and the next ready thread runs.
    pub sleep_refines :
        (cycles : ℕ) → IsValid (scheduler_sleep_running_from_irq cycles k) (Spec.sleep_current s)
    unfolding scheduler_sleep_running_from_irq scheduler_save_current Spec.sleep_current
    sleep_refines cycles =
        let thread : Thread = k.threads k.running in
        let k1 : Kernel = set_thread k.running (record thread { sleep_counter = cycles }) k in
        let k2 : Kernel = scheduler_save_current sleeping k1 in
        let k3 : Kernel = record k2 { links = list_add_last sleep_queue k2.running k2.links } in
        run_next_in_queue-dispatch k3 (record s { sleep = s.sleep ++ s.current ∷ [] })
          (record {
            queued =
                subst (λ q. Queued k3.threads k3.links q)
                  (update-sleep s (s.sleep ++ k.running ∷ [])
                    ∙ ap (λ t. of_head (record s { sleep = s.sleep ++ t ∷ [] })) v.same)
                  (push-Queued k.threads k3.threads k.links (of_head s) k.running sleeping v.queued
                    (λ x. ground arith) sleep_queue (omega arith) user_here (rw runs_here) refl);
            none_runs = λ x small. ground (arith, v.alone x small, v.same);
          })

    -- A running user thread goes to the end of the queue of threads that wait for a character.
    pub wait_refines :
        IsValid (scheduler_wait_running_from_irq uart_wait_queue k) (Spec.wait_current s)
    unfolding scheduler_wait_running_from_irq scheduler_save_current Spec.wait_current
    wait_refines =
        let k1 : Kernel = scheduler_save_current waiting k in
        let k2 : Kernel = record k1 { links = list_add_last uart_wait_queue k1.running k1.links } in
        run_next_in_queue-dispatch k2 (record s { wait = s.wait ++ s.current ∷ [] })
          (record {
            queued =
                subst (λ q. Queued k2.threads k2.links q)
                  (update-wait s (s.wait ++ k.running ∷ [])
                    ∙ ap (λ t. of_head (record s { wait = s.wait ++ t ∷ [] })) v.same)
                  (push-Queued k.threads k2.threads k.links (of_head s) k.running waiting v.queued
                    (λ x. ground arith) uart_wait_queue (omega arith) user_here (rw runs_here)
                    refl);
            none_runs = λ x small. ground (arith, v.alone x small, v.same);
          })
