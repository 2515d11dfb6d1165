-- ===== src/System/Progress.antt =====
-- Progress of the kernel at work: a ready thread runs, whatever exceptions come, once enough ticks have
-- passed.
use betriebssysteme.Common.{
  ℕ, zero, suc, ◌<◌, ◌≤◌, ◌≡◌, ◌⊎◌, inl, inr, arith, sym, ap, ◌∙◌, true, List, [], ◌∷◌, ◌++◌, ◌==◌,
  ==_iff, length, ◌∈◌, Bool-cases, length-append,
}
use betriebssysteme.Common.Pigeonhole.{length-le_of_Distinct}
use betriebssysteme.Common.Words.{test_bit}
use betriebssysteme.Cpu.{cpu_mode_usr, psr_mode, read_spsr}
use betriebssysteme.Handlers.{handle_irq}
use betriebssysteme.Handlers.User.{arrived, ticked}
use betriebssysteme.Kernel.{Kernel, ok, run_queue}
use betriebssysteme.Scheduler.{find_free_thread_id}
use betriebssysteme.Scheduler.Wake.{counter}
use betriebssysteme.Syscalls.{Host}
use betriebssysteme.System.{
  Exception, interrupt, call, fault, handle, IsAllowed, IsUserStep, Reachable,
}
use betriebssysteme.System.Reach.{after, handled-IsServed, Reachable-IsServed}
use betriebssysteme.System.Started.{IsServed-user}
use betriebssysteme.System.Turns.{
  Stands, Comes, Comes-later, tick-Comes, arrive_all-Stands, perform-Comes, terminate-Comes,
}
use betriebssysteme.Systick.Period.{is_due}
use betriebssysteme.Thread.{ThreadPtr, SavedRegisters, ready}
use betriebssysteme.Uart.{uart_rx}
use betriebssysteme.Uart.Spec.{Inbox, IsServed}

-- A run of the system from one state to another, with a lower bound for the ticks in it.
pub data Trace (host : Host) : ℕ → Kernel → Kernel → Type 0 where
  stop : (k : Kernel) → Trace host zero k k
  user : (n : ℕ) (k k' k'' : Kernel) → IsUserStep k k' → Trace host n k' k'' → Trace host n k k''
  handled :
      (n : ℕ) (k k' k'' : Kernel) (e : Exception) (regs : SavedRegisters)
      → psr_mode (read_spsr k.cpu) ≡ cpu_mode_usr
      → IsAllowed e regs k
      → handle e host regs k ≡ ok tt k'
      → Trace host n k' k''
      → Trace host n k k''
  tick :
      (n : ℕ) (k k' k'' : Kernel) (regs : SavedRegisters)
      → psr_mode (read_spsr k.cpu) ≡ cpu_mode_usr
      → is_due k ≡ true
      → handle_irq regs k ≡ ok tt k'
      → Trace host n k' k''
      → Trace host (suc n) k k''

-- The thread is the running one in a state of the run.
abbrev pub RunsIn : {host : Host} {n : ℕ} {k k' : Kernel} → ThreadPtr → Trace host n k k' → Type 0
RunsIn t (stop k) = k.running ≡ t
RunsIn t (user n k k' k'' s r) = (k.running ≡ t) ⊎ RunsIn t r
RunsIn t (handled n k k' k'' e regs mode allowed done r) = (k.running ≡ t) ⊎ RunsIn t r
RunsIn t (tick n k k' k'' regs mode due done r) = (k.running ≡ t) ⊎ RunsIn t r

-- A thread that runs in the first state runs in the run.
pub RunsIn-now :
    {host : Host} {n : ℕ} {k k' : Kernel} (t : ThreadPtr) (r : Trace host n k k')
    → k.running ≡ t
    → RunsIn t r
RunsIn-now t (stop k) e = e
RunsIn-now t (user n k k' k'' s r) e = inl e
RunsIn-now t (handled n k k' k'' x regs mode allowed done r) e = inl e
RunsIn-now t (tick n k k' k'' regs mode due done r) e = inl e

arrived-Stands :
    (t : ThreadPtr) (n : ℕ) (k : Kernel) (i : Inbox)
    → Stands t n i.queues
    → Stands t n (arrived k i).queues
arrived-Stands t n k i p = elim (Bool-cases (test_bit k.uart.mis uart_rx)) [
  | inl e ↦ rw e (arrive_all-Stands t n k.uart.rx i p)
  | inr e ↦ rw e p
]

ticked-Comes :
    (t : ThreadPtr) (n : ℕ) (k : Kernel) (i : Inbox)
    → Stands t (suc n) i.queues
    → is_due k ≡ true
    → Comes t n (ticked k (arrived k i)).queues
ticked-Comes t n k i p due =
    rw due (tick-Comes t n (counter k) (arrived k i).queues (arrived-Stands t (suc n) k i p))

pub after-Comes :
    (t : ThreadPtr) (n : ℕ) (e : Exception) (regs : SavedRegisters) (k : Kernel) (i : Inbox)
    → Stands t n i.queues
    → Comes t n (after e regs k i).queues
after-Comes t zero interrupt regs k i p = absurd (omega (arith, p.less))
after-Comes t (suc n) interrupt regs k i p = elim (Bool-cases (is_due k)) [
  | inl due ↦ Comes-later t n (ticked k (arrived k i)).queues (ticked-Comes t n k i p due)
  | inr off ↦ rw off (inr (arrived-Stands t (suc n) k i p))
]
after-Comes t n call regs k i p = perform-Comes t n regs.r0 (find_free_thread_id k) i p
after-Comes t n (fault f) regs k i p = terminate-Comes t n i.queues p

-- A thread that comes in the first state of a run with as many ticks as there are threads before it
-- runs in the run.
pub trace-RunsIn :
    (host : Host) (t : ThreadPtr) {n : ℕ} {k k' : Kernel} (r : Trace host n k k') (i : Inbox)
    → IsServed k i
    → Comes t n i.queues
    → RunsIn t r
trace-RunsIn host t (stop k) i v (inl e) = v.scheduled.same ∙ e
trace-RunsIn host t (stop k) i v (inr p) = absurd (omega (arith, p.less))
trace-RunsIn host t (user n k k' k'' s r) i v c =
    inr (trace-RunsIn host t r i (IsServed-user k k' i s v) c)
trace-RunsIn host t (handled n k k' k'' e regs mode allowed done r) i v (inl c) =
    inl (v.scheduled.same ∙ c)
trace-RunsIn host t (handled n k k' k'' e regs mode allowed done r) i v (inr p) = inr (
    trace-RunsIn host t r (after e regs k i)
      (handled-IsServed host e regs k k' i v mode allowed done) (after-Comes t n e regs k i p))
trace-RunsIn host t (tick n k k' k'' regs mode due done r) i v (inl c) = inl (v.scheduled.same ∙ c)
trace-RunsIn host t (tick n k k' k'' regs mode due done r) i v (inr p) = inr (
    trace-RunsIn host t r (after interrupt regs k i)
      (handled-IsServed host interrupt regs k k' i v mode tt done) (ticked-Comes t n k i p due))

split_at :
    (t : ℕ) (xs : List ℕ)
    → t ∈ xs
    → (before : List ℕ) × (behind : List ℕ) × (xs ≡ before ++ t ∷ behind)
split_at t [] m = ground arith
split_at t (x ∷ xs) m = elim (Bool-cases (t == x)) [
  | inl e ↦ ([], xs, ap (λ y. y ∷ xs) (sym ((==_iff t x).0 e)))
  | inr e ↦
      let (before, behind, at) = split_at t xs (ground arith) in
      (x ∷ before, behind, ap (λ l. x ∷ l) at)
]

-- A thread in the run queue has fewer than 32 threads before it.
pub queued-Stands :
    (k : Kernel) (i : Inbox) (t : ThreadPtr)
    → IsServed k i
    → t ∈ i.queues.run
    → Stands t 32 i.queues
queued-Stands k i t v here =
    let queue : List ThreadPtr = i.queues.run in
    let (before, behind, at) = split_at t queue here in
    let short : length queue ≤ 32 =
      length-le_of_Distinct 32 queue
        (v.scheduled.queued.rings.ring run_queue (omega arith)).distinct.1
        (λ a. v.scheduled.queued.rings.items run_queue a (omega arith)) in
    record {
      before = before;
      behind = behind;
      at = at;
      less = omega (arith, short, ap length at, length-append before (t ∷ behind));
    }

-- From every reachable state a thread that is ready runs before 32 ticks have passed, whatever
-- interrupts, faults and system calls come between them and whichever threads they come from. Left
-- out are the exceptions that `IsAllowed` excludes: the call that stops the kernel, calls of the
-- idle thread, creations of a thread whose argument is larger than its stack, and aborts whose
-- status is the one behind the table of descriptions.
pub ready_runs :
    (host : Host) (k k' : Kernel) (t : ThreadPtr)
    → Reachable host k
    → t < 32
    → (k.threads t).status ≡ ready
    → (r : Trace host 32 k k') → RunsIn t r
ready_runs host k k' t reachable small e r =
    let (i, v) = Reachable-IsServed host reachable in
    let here : t ∈ i.queues.run = ground (arith, v.scheduled.queued.placed t run_queue small) in
    trace-RunsIn host t r i v (inr (queued-Stands k i t v here))
