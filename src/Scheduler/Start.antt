-- ===== src/Scheduler/Start.antt =====
-- scheduler_start of kernel/threading/scheduler.c, and the state of the kernel at boot.
use mathlib.Core.Path.{subst}
use betriebssysteme.Common.{
  ℕ, ◌<◌, ◌≤◌, ◌≡◌, arith, refl, ap, ==_refl, sym, ◌∙◌, true, some, [], update,
}
use betriebssysteme.Kernel.{
  Kernel, run_queue, uart_wait_queue, idle_thread, null_thread, num_threads,
}
use betriebssysteme.LinkedList.{Ptr}
use betriebssysteme.Scheduler.{
  create_within, scheduler_get_next_thread, is_terminated, find_free_from, find_free_thread_id,
  make_thread, run_next_in_queue, scheduler_run_next, scheduler_replace_irq_context,
  scheduler_run_thread, scheduler_start,
}
use betriebssysteme.Scheduler.Arrive.{create-IsParked}
use betriebssysteme.Scheduler.Dispatch.{run_next_in_queue-dispatch}
use betriebssysteme.Scheduler.Inv.{IsValid-cong, IsParked, IsValid}
use betriebssysteme.Scheduler.Spec
use betriebssysteme.Scheduler.Spec.{Queues, of_head, dispatch}
use betriebssysteme.Thread.{
  ThreadPtr, ThreadContext, Layout, init_thread, initial_sp, zero_context, thread_run, terminated,
}
use betriebssysteme.Cpu.{cpu_mode_usr, set_psr_mode, psr_mode, bank_of_mode, usr}
use betriebssysteme.Scheduler.Context.{thread_run-context}

-- The registers of a thread that has just been created.
abbrev pub first_registers : Layout → ThreadPtr → ℕ → ThreadContext
first_registers layout t arg_size = record zero_context {
  pc = layout.thread_entry;
  sp = initial_sp (layout.stack t) arg_size;
  cpsr = set_psr_mode cpu_mode_usr 0;
}

-- `scheduler_start` up to the choice of the first thread.
idle_ready : Layout → Kernel → Kernel
idle_ready layout k =
    let (idle, memory) =
      init_thread layout idle_thread layout.idle_thread_fn 0 0 (k.threads idle_thread) k.memory in
    record k {
      threads = update k.threads idle_thread (record idle { id = 100 });
      memory = memory;
      is_running = true;
    }

idle_ready-IsParked :
    (layout : Layout) (k : Kernel) (s : Queues) → IsParked k s → IsParked (idle_ready layout k) s
unfolding idle_ready
idle_ready-IsParked layout k s p = record {
  queued = record {
    rings = p.queued.rings;
    placed = λ t h small hq. ground (arith, p.queued.placed t h small hq);
  };
  none_runs = λ t small. ground (arith, p.none_runs t small);
}

-- `scheduler_start` gives the processor to the first thread of the run queue, and to the idle thread
-- if there is none, and turns the scheduler on.
pub start_refines :
    (layout : Layout) (k : Kernel) (s : Queues)
    → IsParked k s
    → IsValid (scheduler_start layout k).0 (dispatch s)
      × ((scheduler_start layout k).0.is_running ≡ true)
unfolding scheduler_start scheduler_run_thread thread_run run_next_in_queue scheduler_run_next
    scheduler_replace_irq_context idle_ready
start_refines layout k s p = (
  IsValid-cong (run_next_in_queue (idle_ready layout k)) (scheduler_start layout k).0 (dispatch s)
      (run_next_in_queue-dispatch (idle_ready layout k) s (idle_ready-IsParked layout k s p)) refl
      refl (λ t. refl),
  refl,
)

-- At boot no thread exists and the three lists are as `list_create` makes them.
pub record IsBoot (k : Kernel) : Type 0 where
  pub no_threads : (t : ThreadPtr) → t < num_threads → (k.threads t).status ≡ terminated
  pub empty_lists :
      (h : Ptr)
      → (run_queue ≤ h) × (h ≤ uart_wait_queue)
      → (k.links.next h ≡ h) × (k.links.prev h ≡ h)

abbrev pub no_queues : Queues
no_queues = record { run = []; sleep = []; wait = []; current = null_thread }

of_head-none : (h : Ptr) → of_head no_queues h ≡ []
of_head-none h = ground arith

pub boot-IsParked : (k : Kernel) → IsBoot k → IsParked k no_queues
boot-IsParked k b = record {
  queued = record {
    rings = record {
      ring = λ h hq.
          rw (of_head-none h)
            (record { chain = b.empty_lists h (omega arith); distinct = (refl, tt) });
      items = λ h a hq m. ground (arith, of_head-none h);
      apart = λ h g a hq gq m. ground (arith, of_head-none h);
    };
    placed = λ t h small hq. rw (of_head-none h, b.no_threads t small) (ground arith);
  };
  none_runs = λ t small. ground (arith, b.no_threads t small);
}

first_free : (k : Kernel) → IsBoot k → find_free_thread_id k ≡ some 0
unfolding find_free_thread_id find_free_from
first_free k b = rw (ap is_terminated (b.no_threads 0 (omega arith)))

-- The kernel that has created its main thread and started runs that thread, alone, and satisfies the
-- invariant of the scheduler.
pub boot_runs_main :
    (layout : Layout) (k : Kernel)
    → IsBoot k
    → IsValid
        (scheduler_start layout (make_thread layout layout.user_main 0 0 k)).0
        (record no_queues { current = 0 })
unfolding Spec.create dispatch
boot_runs_main layout k b =
    (start_refines layout (make_thread layout layout.user_main 0 0 k) (Spec.create 0 no_queues) (
      create-IsParked layout layout.user_main 0 0 k no_queues 0 (boot-IsParked k b)
        (first_free k b))).0

-- The thread that takes over goes on with the registers of its context, and keeps its function.
run_thread-context :
    (t : ThreadPtr) (k : Kernel)
    → bank_of_mode (psr_mode (k.threads t).context.cpsr) ≡ some usr
    → let (k', user) = scheduler_run_thread t k in
      (user ≡ (k.threads t).context) × ((k'.threads t).fn ≡ (k.threads t).fn)
unfolding scheduler_run_thread thread_run
run_thread-context t k mode = (thread_run-context (k.threads t) usr k.cpu mode, rw (==_refl t) refl)

-- Main is in the first place of the table.
main_made :
    (layout : Layout) (k : Kernel)
    → IsBoot k
    → let m = make_thread layout layout.user_main 0 0 k in
      ((m.threads 0).context ≡ first_registers layout 0 0) × ((m.threads 0).fn ≡ layout.user_main)
unfolding make_thread create_within init_thread
main_made layout k b = rw (first_free k b) (refl, refl)

-- The first thread goes on with the registers that it was made with, and its function is main.
pub boot_starts_main :
    (layout : Layout) (k : Kernel)
    → IsBoot k
    → let (k', user) = scheduler_start layout (make_thread layout layout.user_main 0 0 k) in
      (user ≡ first_registers layout 0 0) × ((k'.threads k'.running).fn ≡ layout.user_main)
unfolding scheduler_start scheduler_run_thread bank_of_mode idle_ready
boot_starts_main layout k b =
    let m : Kernel = make_thread layout layout.user_main 0 0 k in
    let (next_thread, l) = scheduler_get_next_thread m.links in
    let idle : Kernel = idle_ready layout m in
    let k1 : Kernel = record idle { links = l } in
    let first : next_thread ≡ 0 = (boot_runs_main layout k b).same in
    let registers : (k1.threads next_thread).context ≡ first_registers layout 0 0 =
      subst (λ t. (k1.threads t).context ≡ first_registers layout 0 0) (sym first)
        (main_made layout k b).0 in
    let fn : (k1.threads next_thread).fn ≡ layout.user_main =
      subst (λ t. (k1.threads t).fn ≡ layout.user_main) (sym first) (main_made layout k b).1 in
    let (user, same) =
      run_thread-context next_thread k1
        (ap (λ (c : ThreadContext). bank_of_mode (psr_mode c.cpsr)) registers) in
    (user ∙ registers, same ∙ fn)
