-- ===== src/Scheduler/Inv.antt =====
-- The invariant of kernel/threading/scheduler.c: the three linked lists are the abstract queues,
-- each thread is on exactly the queue that its status names, and exactly one thread runs.
use mathlib.Core.Path.{fun_ext}
use betriebssysteme.Common.{sym, ◌∙◌, ◌<◌, ◌≡◌, ◌≢◌, ◌⊎◌, arith, List, ◌==◌, update, has}
use betriebssysteme.Kernel.{Kernel, run_queue, sleep_queue, uart_wait_queue, idle_thread}
use betriebssysteme.LinkedList.{Ptr, Links}
use betriebssysteme.LinkedList.Rings.{IsHead, Rings}
use betriebssysteme.Scheduler.Spec.{Queues, of_head}
use betriebssysteme.Thread.{
  ThreadPtr, Thread, ThreadStatus, terminated, ready, running, waiting, sleeping,
}

-- The head of the queue on which a thread of this status is; no queue has the address 0.
abbrev pub home : ThreadStatus → Ptr
home terminated = 0
home running = 0
home ready = run_queue
home sleeping = sleep_queue
home waiting = uart_wait_queue

abbrev pub IsQueue : Ptr → Type 0
IsQueue = IsHead 32 35

-- The lists hold the queues, and each thread is on the queue of its status and on no other.
pub record Queued (threads : ThreadPtr → Thread) (l : Links) (q : Ptr → List Ptr) : Type 0 where
  pub rings : Rings 32 35 l q
  pub placed : (t h : ThreadPtr) → t < 32 → IsQueue h → has t (q h) ≡ (home (threads t).status == h)

-- No thread runs: the kernel is about to choose one.
pub record IsParked (k : Kernel) (s : Queues) : Type 0 where
  pub queued : Queued k.threads k.links (of_head s)
  pub none_runs : (t : ThreadPtr) → t < 32 → (k.threads t).status ≢ running

pub record IsValid (k : Kernel) (s : Queues) : Type 0 where
  pub queued : Queued k.threads k.links (of_head s)
  pub same : k.running ≡ s.current
  pub current : (s.current < 32) ⊎ (s.current ≡ idle_thread)
  pub runs : (k.threads s.current).status ≡ running
  pub alone : (t : ThreadPtr) → t < 32 → (k.threads t).status ≡ running → t ≡ s.current

-- The invariant speaks of the lists, the statuses and the running thread.
pub IsValid-cong :
    (k k' : Kernel) (s : Queues)
    → IsValid k s
    → k'.running ≡ k.running
    → k'.links ≡ k.links
    → ((t : ThreadPtr) → (k'.threads t).status ≡ (k.threads t).status)
    → IsValid k' s
IsValid-cong k k' s v r l st = record {
  queued = record {
    rings = rw l v.queued.rings;
    placed = λ t h small hq. ground (arith, v.queued.placed t h small hq, st t);
  };
  same = r ∙ v.same;
  current = v.current;
  runs = st s.current ∙ v.runs;
  alone = λ t small e. v.alone t small (sym (st t) ∙ e);
}

-- A change of one queue, in the two forms.
pub update-run :
    (s : Queues) (xs : List Ptr) → update (of_head s) run_queue xs ≡ of_head (record s { run = xs })
update-run s xs = fun_ext λ h. ground arith

pub update-sleep :
    (s : Queues) (xs : List Ptr)
    → update (of_head s) sleep_queue xs ≡ of_head (record s { sleep = xs })
update-sleep s xs = fun_ext λ h. ground arith

pub update-wait :
    (s : Queues) (xs : List Ptr)
    → update (of_head s) uart_wait_queue xs ≡ of_head (record s { wait = xs })
update-wait s xs = fun_ext λ h. ground arith
