-- ===== src/Scheduler/Loads.antt =====
-- kernel/threading/scheduler.c: what user code goes on with behind an exception, whether the scheduler
-- switches to another thread or not.
use betriebssysteme.Common.{
  ℕ, ◌<◌, ◌^◌, ◌≡◌, ◌≢◌, ◌⊎◌, inl, inr, refl, sym, ap, ◌∙◌, some, ==_refl, ==_iff, ◌==◌, Bool-cases,
  if◌then◌else◌, true,
}
use betriebssysteme.Cpu.{Cpu, Bank, psr_mode, bank_of_mode}
use betriebssysteme.Scheduler.Inv.{IsValid}
use betriebssysteme.Scheduler.Sleepers.{update_sleepers_refines}
use betriebssysteme.Scheduler.Spec.{Queues}
use betriebssysteme.Scheduler.Tick.{tick_step}
use betriebssysteme.Kernel.{set_thread, ok, Kernel, idle_thread, run_queue}
use betriebssysteme.LinkedList.{Ptr, Links, list_add_last}
use betriebssysteme.Scheduler.{
  context_frame, load_context, scheduler_replace_irq_context, scheduler_run_next, run_next_in_queue,
  switch_to_next, scheduler_tick_from_irq, scheduler_save_current, scheduler_get_next_thread,
  scheduler_thread_terminate_running_from_irq, scheduler_sleep_running_from_irq,
  scheduler_wait_running_from_irq,
}
use betriebssysteme.Scheduler.Context.{save-exception_return, exception_return-load_context}
use betriebssysteme.Scheduler.Contexts.{
  context, program, program-run_next, program-switch, program-run_next_in_queue,
}
use betriebssysteme.Thread.{
  ThreadPtr, ThreadContext, ThreadStatus, exception_return, ready, sleeping, waiting, Thread,
}

-- The registers with which the exception's return leaves the kernel.
abbrev pub goes_on : Kernel → ThreadContext
goes_on k = exception_return k.frame k.cpu

-- The running thread's context has been put into the frame and the processor.
pub record IsLoaded (k : Kernel) : Type 0 where
  pub from : Cpu
  pub frame : k.frame ≡ context_frame (context k k.running)
  pub cpu : k.cpu ≡ load_context (context k k.running) from

-- Then the running thread goes on with that context.
pub IsLoaded-goes_on :
    (k : Kernel) (b : Bank)
    → IsLoaded k
    → bank_of_mode (psr_mode (context k k.running).cpsr) ≡ some b
    → (context k k.running).pc < 2 ^ 32
    → goes_on k ≡ context k k.running
IsLoaded-goes_on k b l mode word =
    rw (l.frame, l.cpu) (exception_return-load_context l.from (context k k.running) b mode word)

run_next-IsLoaded : (next : ThreadPtr) (k : Kernel) → IsLoaded (scheduler_run_next next k)
unfolding scheduler_run_next scheduler_replace_irq_context
run_next-IsLoaded next k = record { from = k.cpu; frame = refl; cpu = refl }

run_next_in_queue-IsLoaded : (k : Kernel) → IsLoaded (run_next_in_queue k)
unfolding run_next_in_queue
run_next_in_queue-IsLoaded k = run_next-IsLoaded _ _

pub terminate-IsLoaded : (k : Kernel) → IsLoaded (scheduler_thread_terminate_running_from_irq k)
unfolding scheduler_thread_terminate_running_from_irq
terminate-IsLoaded k = run_next_in_queue-IsLoaded _

pub sleep-IsLoaded :
    (cycles : ℕ) (k : Kernel) → IsLoaded (scheduler_sleep_running_from_irq cycles k)
unfolding scheduler_sleep_running_from_irq
sleep-IsLoaded cycles k = run_next_in_queue-IsLoaded _

pub wait-IsLoaded : (q : Ptr) (k : Kernel) → IsLoaded (scheduler_wait_running_from_irq q k)
unfolding scheduler_wait_running_from_irq
wait-IsLoaded q k = run_next_in_queue-IsLoaded _

-- The same thread runs on, with the same registers.
pub record Stays (k k' : Kernel) : Type 0 where
  pub running : k'.running ≡ k.running
  pub frame : k'.frame ≡ k.frame
  pub cpu : k'.cpu ≡ k.cpu

-- Another thread runs, and what the first would have gone on with is saved.
pub record Switches (k k' : Kernel) : Type 0 where
  pub away : k'.running ≢ k.running
  pub saved : context k' k.running ≡ goes_on k
  pub loaded : IsLoaded k'

abbrev pub Changes : Kernel → Kernel → Type 0
Changes k k' = Stays k k' ⊎ Switches k k'

saved_at :
    (status : ThreadStatus) (k : Kernel)
    → context (scheduler_save_current status k) k.running ≡ goes_on k
unfolding scheduler_save_current
saved_at status k = rw (context, ==_refl k.running) (save-exception_return k.frame k.cpu)

run_next-running : (next : ThreadPtr) (k : Kernel) → (scheduler_run_next next k).running ≡ next
unfolding scheduler_run_next scheduler_replace_irq_context
run_next-running next k = refl

abbrev first : ThreadContext × ℕ → ThreadContext
first p = p.0

-- A thread that goes to sleep is saved first.
pub sleep-saved :
    (cycles : ℕ) (k : Kernel)
    → context (scheduler_sleep_running_from_irq cycles k) k.running ≡ goes_on k
unfolding scheduler_sleep_running_from_irq
sleep-saved cycles k =
    let thread : Thread = k.threads k.running in
    let k1 : Kernel = set_thread k.running (record thread { sleep_counter = cycles }) k in
    ap first (program-run_next_in_queue k.running _) ∙ saved_at sleeping k1

-- So is one that waits.
pub wait-saved :
    (q : Ptr) (k : Kernel) → context (scheduler_wait_running_from_irq q k) k.running ≡ goes_on k
unfolding scheduler_wait_running_from_irq
wait-saved q k = ap first (program-run_next_in_queue k.running _) ∙ saved_at waiting k

pub switch-Changes : (k : Kernel) → Changes k (switch_to_next k)
unfolding switch_to_next
switch-Changes k =
    let l : Links =
      if k.running == idle_thread then k.links else list_add_last run_queue k.running k.links in
    let next : ThreadPtr = (scheduler_get_next_thread l).0 in
    let k' : Kernel = record k { links = (scheduler_get_next_thread l).1 } in
    elim (Bool-cases (next == k.running)) [
      | inl e ↦ rw e (inl (record { running = refl; frame = refl; cpu = refl }))
      | inr e ↦ rw e (
          inr (record {
            away = λ h.
                let same : (next == k.running) ≡ true =
                  (==_iff next k.running).1
                    (sym (run_next-running next (scheduler_save_current ready k')) ∙ h) in
                cc;
            saved =
                ap first (program-run_next k.running (scheduler_save_current ready k') next)
                ∙ saved_at ready k';
            loaded = run_next-IsLoaded next (scheduler_save_current ready k');
          }))
    ]

-- The same seen from an earlier state with the same frame and processor.
pub Changes-from :
    (k k1 k' : Kernel)
    → k1.running ≡ k.running
    → k1.frame ≡ k.frame
    → k1.cpu ≡ k.cpu
    → Changes k1 k'
    → Changes k k'
Changes-from k k1 k' run frame cpu (inl s) =
    inl (record { running = s.running ∙ run; frame = s.frame ∙ frame; cpu = s.cpu ∙ cpu })
Changes-from k k1 k' run frame cpu (inr s) = inr (record {
  away = λ e. s.away (e ∙ sym run);
  saved = ap (context k') (sym run) ∙ s.saved ∙ rw (frame, cpu) refl;
  loaded = s.loaded;
})

-- A tick lets the running thread go on as it was, or saves it and loads another; the saved registers
-- of the others stay.
pub tick-Changes :
    (k : Kernel) (s : Queues)
    → IsValid k s
    → k.is_running ≡ true
    → (k' : Kernel) × (scheduler_tick_from_irq k ≡ ok tt k')
      × Changes k k'
      × ((t : ThreadPtr) → t ≢ k.running → program k' t ≡ program k t)
tick-Changes k s v on =
    let (k1, done, valid, passed) = update_sleepers_refines k s v in
    let same : k1.running ≡ k.running = ap (λ (x : Kernel). x.running) passed.others in
    (
      switch_to_next k1,
      tick_step k k1 on done,
      Changes-from k k1 (switch_to_next k1) same (ap (λ (x : Kernel). x.frame) passed.others)
          (ap (λ (x : Kernel). x.cpu) passed.others) (switch-Changes k1),
      λ t ne. program-switch t k1 (λ e. ne (e ∙ same)) ∙ passed.contexts t,
    )
