-- ===== src/Scheduler/Spec.antt =====
-- What the scheduler promises: three queues of threads and the thread that runs, with round robin.
use betriebssysteme.Common.{ℕ, Bool, true, false, List, [], ◌∷◌, ◌++◌, ◌==◌, if◌then◌else◌}
use betriebssysteme.Kernel.{run_queue, sleep_queue, uart_wait_queue, idle_thread}
use betriebssysteme.LinkedList.{Ptr}
use betriebssysteme.Thread.{ThreadPtr}

pub record Queues : Type 0 where
  pub run : List ThreadPtr
  pub sleep : List ThreadPtr
  pub wait : List ThreadPtr
  pub current : ThreadPtr

-- The queue behind each list head.
abbrev pub of_head : Queues → Ptr → List Ptr
of_head s h =
    if run_queue == h
    then s.run
    else if sleep_queue == h
    then s.sleep
    else if uart_wait_queue == h
    then s.wait
    else []

abbrev pub dispatch_from : List ThreadPtr → Queues → Queues
dispatch_from [] s = record s { current = idle_thread }
dispatch_from (t ∷ ts) s = record s { run = ts; current = t }

-- The longest waiting ready thread runs next; without one, the idle thread does.
unfoldable pub dispatch : Queues → Queues
dispatch s = dispatch_from s.run s

unfoldable pub terminate : Queues → Queues
unfolding dispatch
terminate s = dispatch s

unfoldable pub sleep_current : Queues → Queues
unfolding dispatch
sleep_current s = dispatch (record s { sleep = s.sleep ++ s.current ∷ [] })

unfoldable pub wait_current : Queues → Queues
unfolding dispatch
wait_current s = dispatch (record s { wait = s.wait ++ s.current ∷ [] })

-- The preempted thread goes to the end of the run queue; the idle thread is on no queue.
unfoldable pub preempt : Queues → Queues
unfolding dispatch
preempt s =
    dispatch (if s.current == idle_thread then s else record s { run = s.run ++ s.current ∷ [] })

-- The sleepers whose counter is zero, and the others, in order.
abbrev pub due : (ThreadPtr → ℕ) → List ThreadPtr → List ThreadPtr
due counter [] = []
due counter (t ∷ ts) = if counter t == 0 then t ∷ due counter ts else due counter ts

abbrev pub still : (ThreadPtr → ℕ) → List ThreadPtr → List ThreadPtr
still counter [] = []
still counter (t ∷ ts) = if counter t == 0 then still counter ts else t ∷ still counter ts

unfoldable pub wake : (ThreadPtr → ℕ) → Queues → Queues
wake counter s = record s { run = s.run ++ due counter s.sleep; sleep = still counter s.sleep }

unfoldable pub tick : (ThreadPtr → ℕ) → Queues → Queues
unfolding wake preempt
tick counter s = preempt (wake counter s)

-- `true` says that a thread was waiting, and is ready now.
abbrev pub notify_from : List ThreadPtr → Queues → Bool × Queues
notify_from [] s = (false, s)
notify_from (t ∷ ts) s = (true, record s { wait = ts; run = s.run ++ t ∷ [] })

unfoldable pub notify : Queues → Bool × Queues
notify s = notify_from s.wait s

unfoldable pub create : ThreadPtr → Queues → Queues
create t s = record s { run = s.run ++ t ∷ [] }
