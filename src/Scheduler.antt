-- ===== src/Scheduler.antt =====
-- kernel/threading/scheduler.c, function by function.
mod Switch
unfoldable pub use Switch.{
  get_current_thread_fn, run_thread_entry, get_current_thread_context, scheduler_begin_exception,
  scheduler_save_thread_context, scheduler_save_current, context_frame, load_context,
  scheduler_replace_irq_context, scheduler_prepare_svc_return,
}
pub mod Spec
pub mod Create
pub mod Inv
pub mod Queued
pub mod Dispatch
pub mod Turn
pub mod Wake
pub mod Sleepers
pub mod Tick
pub mod Counters
pub mod Contexts
pub mod Arrive
pub mod Start
pub mod Context
pub mod Loads
pub mod Waiters
use betriebssysteme.Common.{
  ℕ, zero, suc, ◌+◌, ◌-◌, Bool, true, false, not, Option, none, some, List, [], ◌∷◌, ltb, ◌==◌,
  if◌then◌else◌, update, leb, ◌≡◌, ◌≤◌, refl, sym, ap, arith, inl, inr, Bool-cases,
}
use mathlib.Core.Path.{subst}
use betriebssysteme.Common.Words.{add_u32, sub_u32, codes}
use betriebssysteme.Cpu.{
  Cpu, psr_mode, read_spsr, read_lr_mode, read_sp_mode, write_lr_mode, write_sp_mode, write_spsr,
}
use betriebssysteme.Kernel.{
  Kernel, num_threads, run_queue, sleep_queue, idle_thread, Run, ok, halted, undefined, out_of_fuel,
  Cmd, ◌>>=◌, ◌>>◌, step, and_then, set_thread, send,
}
use betriebssysteme.LinkedList.{
  Ptr, Links, list_is_empty, list_add_last, list_remove_first, Search, found, missing, list_remove,
}
use betriebssysteme.Mem.{Memory}
use betriebssysteme.Thread.{
  ThreadPtr, Thread, ThreadContext, SavedRegisters, ThreadStatus, terminated, ready, running,
  waiting, sleeping, Layout, zero_context, init_thread, thread_init, thread_init-fits,
  thread_init-exceeds, thread_stack_size, thread_from_queue, thread_run,
}

-- `enum result`
pub data Result : Type 0 where
  result_ok result_error : Result

abbrev pub is_terminated : ThreadStatus → Bool
is_terminated terminated = true
is_terminated ready = false
is_terminated running = false
is_terminated waiting = false
is_terminated sleeping = false

abbrev pub is_running_status : ThreadStatus → Bool
is_running_status running = true
is_running_status terminated = false
is_running_status ready = false
is_running_status waiting = false
is_running_status sleeping = false

-- `while (id < NUM_THREADS && status != TERMINATED) id++`: `left` rounds remain up to the limit.
unfoldable pub find_free_from : ℕ → ℕ → (ThreadPtr → Thread) → Option ThreadPtr
find_free_from zero id threads = none
find_free_from (suc left) id threads =
    let rest = find_free_from left (id + 1) threads in
    if is_terminated (threads id).status then some id else rest

unfoldable pub find_free_thread_id : Kernel → Option ThreadPtr
unfolding find_free_from
find_free_thread_id k = find_free_from num_threads 0 k.threads

-- What `scheduler_thread_create` does behind its search, if the argument fits the new stack.
unfoldable pub create_within : Layout → ℕ → ℕ → ℕ → Option ThreadPtr → Kernel → Kernel
create_within layout fn arg arg_size none k = send (codes "Could not create thread.\n") k
create_within layout fn arg arg_size (some thread_id) k =
    let old : Thread = k.threads thread_id in
    let fresh : Thread = record old { id = thread_id; context = zero_context } in
    let (thread, memory) = init_thread layout thread_id fn arg arg_size fresh k.memory in
    record k {
      threads = update k.threads thread_id thread;
      memory = memory;
      links = list_add_last run_queue thread_id k.links;
    }

unfoldable pub make_thread : Layout → ℕ → ℕ → ℕ → Kernel → Kernel
make_thread layout fn arg arg_size k =
    create_within layout fn arg arg_size (find_free_thread_id k) k

-- The new thread is in the table and at the end of the run queue, if its argument could be copied.
unfoldable pub add_thread : ThreadPtr → Kernel → Option (Thread × Memory) → Run (Unit {0})
add_thread thread_id k none = undefined
add_thread thread_id k (some (thread, memory)) = ok tt (record k {
  threads = update k.threads thread_id thread;
  memory = memory;
  links = list_add_last run_queue thread_id k.links;
})

-- `scheduler_thread_create` behind its search, with the number that the search found.
unfoldable pub create_at : Layout → ℕ → ℕ → ℕ → Option ThreadPtr → Cmd (Unit {0})
create_at layout fn arg arg_size none k = ok tt (send (codes "Could not create thread.\n") k)
create_at layout fn arg arg_size (some thread_id) k =
    let old : Thread = k.threads thread_id in
    let fresh : Thread = record old { id = thread_id; context = zero_context } in
    add_thread thread_id k (thread_init layout thread_id fn arg arg_size fresh k.memory)

unfoldable pub scheduler_thread_create : Layout → ℕ → ℕ → ℕ → Cmd (Unit {0})
scheduler_thread_create layout fn arg arg_size k =
    create_at layout fn arg arg_size (find_free_thread_id k) k

-- The next thread, and the lists that are left.
unfoldable pub scheduler_get_next_thread : Links → ThreadPtr × Links
scheduler_get_next_thread l =
    let (node, l') = list_remove_first run_queue l in
    elim (thread_from_queue node) [ none ↦ (idle_thread, l') | some t ↦ (t, l') ]

-- The body of the loop of `scheduler_update_sleepers`, for one thread. Fuel is for `list_remove`.
unfoldable pub update_sleeper : ℕ → ThreadPtr → Cmd (Unit {0})
update_sleeper fuel t k =
    let thread : Thread = k.threads t in
    if thread.sleep_counter == 0
    then elim (list_remove fuel sleep_queue t k.links) [
      | found _ l ↦ ok tt (
          set_thread t (record thread { status = ready })
            (record k { links = list_add_last run_queue t l }))
      | missing l ↦ ok tt (
          set_thread t (record thread { status = ready })
            (record k { links = list_add_last run_queue t l }))
      | Search.out_of_fuel ↦ out_of_fuel
    ]
    else ok tt (set_thread t (record thread { sleep_counter = thread.sleep_counter - 1 }) k)

-- `while (cur != sleep_queue)`; `cur` moves on before the body runs.
unfoldable pub update_sleepers_loop : ℕ → Ptr → Cmd (Unit {0})
update_sleepers_loop zero cur k = out_of_fuel
update_sleepers_loop (suc fuel) cur k =
    if cur == sleep_queue
    then ok tt k
    else and_then (update_sleeper (suc num_threads) cur k)
        (λ _. update_sleepers_loop fuel (k.links.next cur))

unfoldable pub scheduler_update_sleepers : Cmd (Unit {0})
scheduler_update_sleepers k =
    if list_is_empty sleep_queue k.links
    then ok tt k
    else update_sleepers_loop (suc num_threads) (k.links.next sleep_queue) k

unfoldable pub scheduler_run_next : ThreadPtr → Kernel → Kernel
scheduler_run_next next_thread k =
    let thread : Thread = k.threads next_thread in
    scheduler_replace_irq_context next_thread (record k {
      threads = update k.threads next_thread (record thread { status = running });
      running = next_thread;
    })

-- `scheduler_run_next(scheduler_get_next_thread())`
unfoldable pub run_next_in_queue : Kernel → Kernel
run_next_in_queue k =
    let (next_thread, l) = scheduler_get_next_thread k.links in
    scheduler_run_next next_thread (record k { links = l })

-- `scheduler_tick_from_irq` behind the update of the sleepers.
unfoldable pub switch_to_next : Kernel → Kernel
switch_to_next k =
    let l : Links =
      if k.running == idle_thread then k.links else list_add_last run_queue k.running k.links in
    let (next_thread, l') = scheduler_get_next_thread l in
    let k' : Kernel = record k { links = l' } in
    if next_thread == k.running
    then k'
    else scheduler_run_next next_thread (scheduler_save_current ready k')

unfoldable pub scheduler_tick_from_irq : Cmd (Unit {0})
scheduler_tick_from_irq k =
    if k.is_running
    then and_then (scheduler_update_sleepers k) (λ _. step switch_to_next)
    else ok tt k

unfoldable pub scheduler_thread_terminate_running_from_irq : Kernel → Kernel
scheduler_thread_terminate_running_from_irq k =
    let thread : Thread = k.threads k.running in
    run_next_in_queue (set_thread k.running (record thread { status = terminated }) k)

unfoldable pub scheduler_sleep_running_from_irq : ℕ → Kernel → Kernel
scheduler_sleep_running_from_irq cycles k =
    let thread : Thread = k.threads k.running in
    let k1 : Kernel = set_thread k.running (record thread { sleep_counter = cycles }) k in
    let k2 : Kernel = scheduler_save_current sleeping k1 in
    run_next_in_queue (record k2 { links = list_add_last sleep_queue k2.running k2.links })

unfoldable pub scheduler_wait_running_from_irq : Ptr → Kernel → Kernel
scheduler_wait_running_from_irq wait_queue k =
    let k1 : Kernel = scheduler_save_current waiting k in
    run_next_in_queue (record k1 { links = list_add_last wait_queue k1.running k1.links })

-- `scheduler_notify_one_from_irq` behind the removal of the first node. A thread on the queue that
-- runs is an error that stops the kernel in `while (1)`.
unfoldable pub notify_thread : ℕ → Option ThreadPtr → Cmd Result
notify_thread value none k = ok result_error k
notify_thread value (some t) k =
    let thread : Thread = k.threads t in
    let context : ThreadContext = thread.context in
    if is_running_status thread.status
    then halted (send (codes "Attempted to notify running thread\n") k)
    else ok result_ok (
        set_thread t (record thread { context = record context { r0 = value }; status = ready })
          (record k { links = list_add_last run_queue t k.links }))

unfoldable pub scheduler_notify_one_from_irq : Ptr → ℕ → Cmd Result
scheduler_notify_one_from_irq wait_queue value k =
    let (node, l) = list_remove_first wait_queue k.links in
    notify_thread value (thread_from_queue node) (record k { links = l })

-- The kernel when the first thread takes over, and what that thread finds in its registers.
unfoldable pub scheduler_run_thread : ThreadPtr → Kernel → Kernel × ThreadContext
scheduler_run_thread t k =
    let (thread, cpu, user) = thread_run (k.threads t) k.cpu in
    (record k { running = t; threads = update k.threads t thread; cpu = cpu }, user)

-- `idle_thread` gets no argument, which fits its stack.
unfoldable pub scheduler_start : Layout → Kernel → Kernel × ThreadContext
scheduler_start layout k =
    let (idle, memory) =
      init_thread layout idle_thread layout.idle_thread_fn 0 0 (k.threads idle_thread) k.memory in
    let (next_thread, l) = scheduler_get_next_thread k.links in
    scheduler_run_thread next_thread (record k {
      threads = update k.threads idle_thread (record idle { id = 100 });
      memory = memory;
      is_running = true;
      links = l;
    })
