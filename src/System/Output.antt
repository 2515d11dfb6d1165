-- ===== src/System/Output.antt =====
-- What the kernel prints: the characters that each exception sends through the UART.
use mathlib.Core.List.{append_assoc, append-nil}
use mathlib.Core.Path.{subst}
use betriebssysteme.Common.{
  ℕ, zero, suc, ◌<◌, ◌%◌, ◌≡◌, ◌≢◌, arith, refl, sym, ap, ◌∙◌, false, Option, none, some, List, [],
  ◌∷◌, ◌++◌, ◌==◌, leb, if◌then◌else◌, inl, inr, Bool-cases, ==_iff,
}
use betriebssysteme.Common.Words.{codes}
use betriebssysteme.Cpu.{cpu_mode_usr, psr_mode, read_spsr}
use betriebssysteme.Handlers.{handle_irq, handle_svc}
use betriebssysteme.Handlers.Call.{unknown_done, unknown_report}
use betriebssysteme.Handlers.Kept.{Ends}
use betriebssysteme.Handlers.Served.{IsServed-begin}
use betriebssysteme.Handlers.User.{
  Fault, IsDescribed, handle_fault, fault_done, fault_report, arrived, gifts, is_due-same,
}
use betriebssysteme.Kernel.{Kernel, Uart, send, uart_wait_queue}
use betriebssysteme.RingBuffer.{RingBuff, buff_is_empty, buff_getc}
use betriebssysteme.Scheduler.Create.{thread_create-either}
use betriebssysteme.Scheduler.{
  create_within, find_free_thread_id, run_next_in_queue, scheduler_begin_exception,
  scheduler_prepare_svc_return, scheduler_replace_irq_context, scheduler_run_next,
  scheduler_save_current, scheduler_sleep_running_from_irq, make_thread,
  scheduler_thread_terminate_running_from_irq, scheduler_wait_running_from_irq,
}
use betriebssysteme.Syscalls.{
  Host, handle_syscall, svc_handlers, sys_exit, sys_create_thread, sys_getc, sys_putc, sys_sleep,
}
use betriebssysteme.System.{Exception, interrupt, call, fault, handle, IsAllowed}
use betriebssysteme.System.Progress.{Trace, stop, user, handled, tick}
use betriebssysteme.System.Reach.{after, handled-IsServed}
use betriebssysteme.System.Started.{IsServed-user}
use betriebssysteme.Systick.Period.{is_due, systick_idle, systick_silent}
use betriebssysteme.Thread.{Layout, SavedRegisters, ThreadPtr}
use betriebssysteme.Uart.{return_char, uart_putc, uart_user_getc}
use betriebssysteme.Uart.Deliver.{handle_irq_refines}
use betriebssysteme.LinkedList.{Ptr}
use betriebssysteme.Uart.Spec.{Inbox, IsServed}

-- The message of `scheduler_thread_create` when every place of the table is taken.
abbrev pub refusal : Option ThreadPtr → List ℕ
refusal none = codes "Could not create thread.\n"
refusal (some t) = []

-- What each system call prints.
abbrev pub printed_call : ℕ → SavedRegisters → Kernel → List ℕ
printed_call number regs k =
    if leb 6 number
    then unknown_report regs k.cpu
    else if number == 1
    then refusal (find_free_thread_id k)
    else if number == 3
    then regs.r1 % 256 ∷ []
    else []

abbrev pub printed_by : Exception → SavedRegisters → Kernel → List ℕ
printed_by interrupt regs k = []
printed_by call regs k = printed_call regs.r0 regs k
printed_by (fault f) regs k = fault_report f regs k.cpu

-- The device has sent so much more.
abbrev pub Sends : List ℕ → Kernel → Kernel → Type 0
Sends cs k k' = k'.uart.tx ≡ k.uart.tx ++ cs

Sends-nothing : (k k' : Kernel) → k'.uart.tx ≡ k.uart.tx → Sends [] k k'
Sends-nothing k k' e = e ∙ sym (append-nil k.uart.tx)

terminate-Sends :
    (cs : List ℕ) (k : Kernel)
    → Sends cs k (scheduler_thread_terminate_running_from_irq (send cs k))
unfolding scheduler_thread_terminate_running_from_irq run_next_in_queue scheduler_run_next
    scheduler_replace_irq_context
terminate-Sends cs k = refl

exit-Sends : (k : Kernel) → Sends [] k (scheduler_thread_terminate_running_from_irq k)
unfolding scheduler_thread_terminate_running_from_irq run_next_in_queue scheduler_run_next
    scheduler_replace_irq_context
exit-Sends k = sym (append-nil k.uart.tx)

wait-Sends : (q : Ptr) (k : Kernel) → Sends [] k (scheduler_wait_running_from_irq q k)
unfolding scheduler_wait_running_from_irq run_next_in_queue scheduler_run_next
    scheduler_replace_irq_context scheduler_save_current
wait-Sends q k = sym (append-nil k.uart.tx)

sleep-Sends : (cycles : ℕ) (k : Kernel) → Sends [] k (scheduler_sleep_running_from_irq cycles k)
unfolding scheduler_sleep_running_from_irq run_next_in_queue scheduler_run_next
    scheduler_replace_irq_context scheduler_save_current
sleep-Sends cycles k = sym (append-nil k.uart.tx)

create-Sends :
    (layout : Layout) (fn arg size : ℕ) (o : Option ThreadPtr) (k : Kernel)
    → Sends (refusal o) k (create_within layout fn arg size o k)
unfolding create_within
create-Sends layout fn arg size none k = refl
create-Sends layout fn arg size (some t) k = sym (append-nil k.uart.tx)

return_char-Sends : (o : Option (ℕ × RingBuff)) (k : Kernel) → Ends (Sends [] k) (return_char o k)
unfolding return_char scheduler_prepare_svc_return
return_char-Sends none k = tt
return_char-Sends (some (c, b)) k = sym (append-nil k.uart.tx)

user_getc-Sends : (k : Kernel) → Ends (Sends [] k) (uart_user_getc k)
unfolding uart_user_getc
user_getc-Sends k = elim (Bool-cases (buff_is_empty k.uart_ringbuffer)) [
  | inl e ↦ rw e (wait-Sends uart_wait_queue k)
  | inr e ↦ rw e (return_char-Sends (buff_getc k.uart_ringbuffer) k)
]

module _ (host : Host) (regs : SavedRegisters) (k : Kernel) where
  known_call : (n : ℕ) → n < 5 → Ends (Sends (printed_call n regs k) k) (svc_handlers host n regs k)
  unfolding svc_handlers sys_exit sys_create_thread sys_getc sys_putc sys_sleep uart_putc
      make_thread
  known_call zero lt = exit-Sends k
  known_call (suc zero) lt =
      thread_create-either host.layout regs.r1 regs.r2 regs.r3 k
        (Ends (Sends (printed_call 1 regs k) k)) tt
        (create-Sends host.layout regs.r1 regs.r2 regs.r3 (find_free_thread_id k) k)
  known_call (suc (suc zero)) lt = user_getc-Sends k
  known_call (suc (suc (suc zero))) lt = refl
  known_call (suc (suc (suc (suc zero)))) lt = sleep-Sends regs.r1 k
  known_call (suc (suc (suc (suc (suc n))))) lt = absurd (omega arith)

  unknown-Sends :
      5 < regs.r0 → Ends (Sends (unknown_report regs k.cpu) k) (handle_syscall host regs k)
  unknown-Sends big =
      rw (unknown_done host regs k big) (terminate-Sends (unknown_report regs k.cpu) k)

  known_done : regs.r0 < 5 → handle_syscall host regs k ≡ svc_handlers host regs.r0 regs k
  unfolding handle_syscall
  known_done lt = let below : leb 6 regs.r0 ≡ false = ground arith in rw below refl

  known-Sends :
      regs.r0 < 5 → Ends (Sends (printed_call regs.r0 regs k) k) (handle_syscall host regs k)
  known-Sends lt = rw (known_done lt) (known_call regs.r0 lt)

  syscall-Sends :
      regs.r0 ≢ 5 → Ends (Sends (printed_call regs.r0 regs k) k) (handle_syscall host regs k)
  syscall-Sends other = elim (Bool-cases (leb 6 regs.r0)) [
    | inl e ↦
        let spoken : printed_call regs.r0 regs k ≡ unknown_report regs k.cpu = rw e refl in
        subst (λ cs. Ends (Sends cs k) (handle_syscall host regs k)) (sym spoken)
          (unknown-Sends (ground arith))
    | inr e ↦ known-Sends (ground arith)
  ]

svc-Sends :
    (host : Host) (regs : SavedRegisters) (k : Kernel)
    → regs.r0 ≢ 5
    → psr_mode (read_spsr k.cpu) ≡ cpu_mode_usr
    → Ends (Sends (printed_call regs.r0 regs k) k) (handle_svc host regs k)
unfolding handle_svc scheduler_begin_exception find_free_thread_id
svc-Sends host regs k other mode =
    rw ((==_iff _ _).1 mode) (syscall-Sends host regs (scheduler_begin_exception regs k) other)

fault-Sends :
    (f : Fault) (regs : SavedRegisters) (k : Kernel)
    → psr_mode (read_spsr k.cpu) ≡ cpu_mode_usr
    → IsDescribed f k.cpu
    → Ends (Sends (fault_report f regs k.cpu) k) (handle_fault f regs k)
unfolding scheduler_begin_exception
fault-Sends f regs k mode known =
    rw (fault_done regs k f mode known)
      (terminate-Sends (fault_report f regs k.cpu) (scheduler_begin_exception regs k))

irq-Sends :
    (regs : SavedRegisters) (k : Kernel) (i : Inbox)
    → IsServed k i
    → Ends (Sends [] k) (handle_irq regs k)
unfolding handle_irq scheduler_begin_exception
irq-Sends regs k i v =
    let k0 : Kernel = scheduler_begin_exception regs k in
    let (k1, done, v1, same) = handle_irq_refines k0 i (IsServed-begin regs k i v) in
    elim (Bool-cases (is_due k)) [
      | inl e ↦
          let (k2, end, silent) =
            systick_silent k1 (arrived k i) v1 (is_due-same (gifts k i) k0 k1 same ∙ e) in
          rw (done, end) (Sends-nothing k k2 (ap (λ (u : Uart). u.tx) silent ∙ same.printed))
      | inr e ↦
          rw (done, systick_idle k1 (is_due-same (gifts k i) k0 k1 same ∙ e))
            (Sends-nothing k k1 same.printed)
    ]

-- What the handler of an exception sends.
handle-Sends :
    (host : Host) (e : Exception) (regs : SavedRegisters) (k : Kernel) (i : Inbox)
    → IsServed k i
    → psr_mode (read_spsr k.cpu) ≡ cpu_mode_usr
    → IsAllowed e regs k
    → Ends (Sends (printed_by e regs k) k) (handle e host regs k)
handle-Sends host interrupt regs k i v mode allowed = irq-Sends regs k i v
handle-Sends host call regs k i v mode (small, other, fits) = svc-Sends host regs k other mode
handle-Sends host (fault f) regs k i v mode known = fault-Sends f regs k mode known

-- Neither user code nor the device changes what has been sent.
abbrev pub IsSilent : {host : Host} {n : ℕ} {k k' : Kernel} → Trace host n k k' → Type 0
IsSilent (stop k) = Unit
IsSilent (user n k k' k'' s r) = (k'.uart.tx ≡ k.uart.tx) × IsSilent r
IsSilent (handled n k k' k'' e regs mode allowed done r) = IsSilent r
IsSilent (tick n k k' k'' regs mode due done r) = IsSilent r

-- What the exceptions of a run print, one after the other.
abbrev pub printed_in : {host : Host} {n : ℕ} {k k' : Kernel} → Trace host n k k' → List ℕ
printed_in (stop k) = []
printed_in (user n k k' k'' s r) = printed_in r
printed_in (handled n k k' k'' e regs mode allowed done r) = printed_by e regs k ++ printed_in r
printed_in (tick n k k' k'' regs mode due done r) = printed_in r

Sends-trans : (cs ds : List ℕ) (i j k : Kernel) → Sends cs i j → Sends ds j k → Sends (cs ++ ds) i k
Sends-trans cs ds i j k first next = next ∙ ap (λ s. s ++ ds) first ∙ append_assoc i.uart.tx cs ds

-- In every run of the system, in which user code does not write to the UART itself and no thread
-- is created with an argument larger than its stack, what the device sends is what the exceptions
-- print, one after the other: the character of each call of `sys_putc`, the message of a creation
-- that finds no free place, and the report of each fault and each unknown call. Interrupts and the
-- other calls print nothing.
pub run_prints :
    (host : Host) (n : ℕ) (k k' : Kernel) (r : Trace host n k k') (i : Inbox)
    → IsServed k i
    → IsSilent r
    → k'.uart.tx ≡ k.uart.tx ++ printed_in r
run_prints host n k k' (stop _) i v quiet = sym (append-nil k.uart.tx)
run_prints host n k k' (user _ _ k1 _ s r) i v (same, quiet) =
    run_prints host n k1 k' r i (IsServed-user k k1 i s v) quiet
    ∙ ap (λ sent. sent ++ printed_in r) same
run_prints host n k k' (handled _ _ k1 _ e regs mode allowed done r) i v quiet =
    let j : Inbox = after e regs k i in
    Sends-trans (printed_by e regs k) (printed_in r) k k1 k'
      (subst (Ends (Sends (printed_by e regs k) k)) done
        (handle-Sends host e regs k i v mode allowed))
      (run_prints host n k1 k' r j (handled-IsServed host e regs k k1 i v mode allowed done) quiet)
run_prints host n k k' (tick m _ k1 _ regs mode due done r) i v quiet =
    let j : Inbox = after interrupt regs k i in
    Sends-trans [] (printed_in r) k k1 k' (subst (Ends (Sends [] k)) done (irq-Sends regs k i v)) (
      run_prints host m k1 k' r j (handled-IsServed host interrupt regs k k1 i v mode tt done)
        quiet)
