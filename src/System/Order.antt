-- ===== src/System/Order.antt =====
-- The characters of a run reach the threads in the order in which they arrive.
use mathlib.Core.List.{append-nil}
use betriebssysteme.Common.{
  ℕ, ◌+◌, ◌<◌, ◌≤◌, ◌≡◌, arith, refl, sym, ap, false, ◌∙◌, Option, List, [], ◌∷◌, ◌++◌, ◌==◌,
  length, length-append, Bool-cases, inl, inr, if◌then◌else◌,
}
use betriebssysteme.Common.Words.{test_bit}
use betriebssysteme.Handlers.User.{arrived, ticked, gifts}
use betriebssysteme.Kernel.{Kernel}
use betriebssysteme.RingBuffer.Refine.{contents}
use betriebssysteme.Scheduler.{find_free_thread_id}
use betriebssysteme.Syscalls.{Host}
use betriebssysteme.Syscalls.Spec.{perform}
use betriebssysteme.System.{Exception, interrupt, call, fault}
use betriebssysteme.System.Characters.{given_by, given_in, after_all, asked_for}
use betriebssysteme.System.Progress.{Trace, stop, user, handled, tick}
use betriebssysteme.System.Reach.{after, handled-IsServed}
use betriebssysteme.System.Received.{ReceivesIn, trace-ReceivesIn}
use betriebssysteme.System.Started.{IsServed-user}
use betriebssysteme.Systick.Period.{is_due}
use betriebssysteme.Thread.{ThreadPtr, SavedRegisters}
use betriebssysteme.Uart.{uart_rx}
use betriebssysteme.Uart.Given.{accepted_all}
use betriebssysteme.Uart.Order.{
  InOrder, InOrder-trans, IsPrompt, chars, arrive_all-InOrder, as_chars, length-as_chars,
  accepted_all-room, length-arrive_all,
}
use betriebssysteme.Uart.Spec.{Inbox, IsServed, ask_from}

-- The characters that an exception finds at the device, and those of them that are not dropped.
abbrev pub arriving : Exception → Kernel → List ℕ
arriving interrupt k = if test_bit k.uart.mis uart_rx then as_chars k.uart.rx else []
arriving call k = []
arriving (fault f) k = []

abbrev pub accepted_by : Exception → Kernel → Inbox → List ℕ
accepted_by interrupt k i = if test_bit k.uart.mis uart_rx then accepted_all k.uart.rx i else []
accepted_by call k i = []
accepted_by (fault f) k i = []

abbrev pub arriving_in : {host : Host} {n : ℕ} {k k' : Kernel} → Trace host n k k' → List ℕ
arriving_in (stop k) = []
arriving_in (user n k k' k'' s r) = arriving_in r
arriving_in (handled n k k' k'' e regs mode allowed done r) = arriving e k ++ arriving_in r
arriving_in (tick n k k' k'' regs mode due done r) = arriving interrupt k ++ arriving_in r

abbrev pub accepted_in : {host : Host} {n : ℕ} {k k' : Kernel} → Trace host n k k' → Inbox → List ℕ
accepted_in (stop k) i = []
accepted_in (user n k k' k'' s r) i = accepted_in r i
accepted_in (handled n k k' k'' e regs mode allowed done r) i =
    accepted_by e k i ++ accepted_in r (after e regs k i)
accepted_in (tick n k k' k'' regs mode due done r) i =
    accepted_by interrupt k i ++ accepted_in r (after interrupt regs k i)

ticked-stored : (k : Kernel) (i : Inbox) → (ticked k i).stored ≡ i.stored
ticked-stored k i = elim (Bool-cases (is_due k)) [ inl e ↦ rw e refl | inr e ↦ rw e refl ]

ask_from-InOrder :
    (q : List ℕ) (i : Inbox)
    → i.stored ≡ q
    → InOrder i [] (asked_for q i.queues.current) (ask_from q i)
ask_from-InOrder [] i e = append-nil i.stored
ask_from-InOrder (c ∷ q) i e = append-nil i.stored ∙ e

perform-InOrder :
    (number : ℕ) (free : Option ThreadPtr) (i : Inbox)
    → InOrder i []
        (if number == 2 then asked_for i.stored i.queues.current else [])
        (perform number free i)
perform-InOrder number free i = elim (Bool-cases (number == 1)) [
  | inl a ↦ let two : (number == 2) ≡ false = ground arith in rw (a, two) (append-nil i.stored)
  | inr a ↦ elim (Bool-cases (number == 2)) [
    | inl b ↦ rw (a, b) (ask_from-InOrder i.stored i refl)
    | inr b ↦ elim (Bool-cases (number == 3)) [
      | inl c ↦ rw (a, b, c) (append-nil i.stored)
      | inr c ↦ elim (Bool-cases (number == 4)) [
        | inl d ↦ rw (a, b, c, d) (append-nil i.stored)
        | inr d ↦ rw (a, b, c, d) (append-nil i.stored)
      ]
    ]
  ]
]

arrived-InOrder :
    (k : Kernel) (i : Inbox)
    → IsPrompt i
    → InOrder i (accepted_by interrupt k i) (gifts k i) (arrived k i)
arrived-InOrder k i prompt = elim (Bool-cases (test_bit k.uart.mis uart_rx)) [
  | inl e ↦ rw e (arrive_all-InOrder k.uart.rx i prompt)
  | inr e ↦ rw e (append-nil i.stored)
]

exception-InOrder :
    (e : Exception) (regs : SavedRegisters) (k : Kernel) (i : Inbox)
    → IsPrompt i
    → InOrder i (accepted_by e k i) (given_by e regs k i) (after e regs k i)
exception-InOrder interrupt regs k i prompt =
    arrived-InOrder k i prompt
    ∙ ap (λ q. chars (gifts k i) ++ q) (sym (ticked-stored k (arrived k i)))
exception-InOrder call regs k i prompt = perform-InOrder regs.r0 (find_free_thread_id k) i
exception-InOrder (fault f) regs k i prompt = append-nil i.stored

trace-InOrder :
    {host : Host} {n : ℕ} {k k' : Kernel} (r : Trace host n k k') (i : Inbox)
    → IsServed k i
    → IsServed k' (after_all r i) × InOrder i (accepted_in r i) (given_in r i) (after_all r i)
trace-InOrder (stop k) i v = (v, append-nil i.stored)
trace-InOrder (user n k k' k'' s r) i v = trace-InOrder r i (IsServed-user k k' i s v)
trace-InOrder {host} (handled n k k' k'' e regs mode allowed done r) i v =
    let j : Inbox = after e regs k i in
    let (w, next) = trace-InOrder r j (handled-IsServed host e regs k k' i v mode allowed done) in
    (
      w,
      InOrder-trans i j (after_all r j) (accepted_by e k i) (accepted_in r j) (given_by e regs k i)
          (given_in r j) (exception-InOrder e regs k i v.no_lost) next,
    )
trace-InOrder {host} (tick n k k' k'' regs mode due done r) i v =
    let j : Inbox = after interrupt regs k i in
    let (w, next) =
      trace-InOrder r j (handled-IsServed host interrupt regs k k' i v mode tt done) in
    (
      w,
      InOrder-trans i j (after_all r j) (accepted_by interrupt k i) (accepted_in r j)
          (given_by interrupt regs k i) (given_in r j)
          (exception-InOrder interrupt regs k i v.no_lost) next,
    )

-- In every run of the system the characters that were in the buffer, followed by those that arrive
-- and are not dropped, are the characters that are given to threads, in the order in which they
-- are given, followed by those in the buffer at the end; and each thread of the table finds every
-- character that it is given: in its saved `r0` when an interrupt wakes it, in the `r0` with which
-- its call returns else. No thread is created in the run with an argument larger than its stack.
pub characters_in_order :
    (host : Host) (n : ℕ) (k k' : Kernel) (r : Trace host n k k') (i : Inbox) (t : ThreadPtr)
    → IsServed k i
    → t < 32
    → (contents k.uart_ringbuffer ++ accepted_in r i
        ≡ chars (given_in r i) ++ contents k'.uart_ringbuffer)
      × ReceivesIn t r i
characters_in_order host n k k' r i t v small =
    let (w, order) = trace-InOrder r i v in
    (rw (v.holds, w.holds) order, trace-ReceivesIn t r i v small)

arrived-room :
    (k : Kernel) (i : Inbox)
    → length i.stored + length (arriving interrupt k) ≤ 128
    → (accepted_by interrupt k i ≡ arriving interrupt k)
      × (length (arrived k i).stored ≤ length i.stored + length (arriving interrupt k))
arrived-room k i room = elim (Bool-cases (test_bit k.uart.mis uart_rx)) [
  | inl e ↦
      let room' = rw (e, length-as_chars k.uart.rx) at room in
      rw (e, length-as_chars k.uart.rx)
        (accepted_all-room k.uart.rx i room', length-arrive_all k.uart.rx i)
  | inr e ↦ rw e (refl, omega arith)
]

exception-room :
    (e : Exception) (regs : SavedRegisters) (k : Kernel) (i : Inbox)
    → IsPrompt i
    → length i.stored + length (arriving e k) ≤ 128
    → (accepted_by e k i ≡ arriving e k)
      × (length (after e regs k i).stored ≤ length i.stored + length (arriving e k))
exception-room interrupt regs k i prompt room =
    let (all, bound) = arrived-room k i room in (all, rw (ticked-stored k (arrived k i)) bound)
exception-room call regs k i prompt room = (refl, shorter)
  where
    shorter : length (after call regs k i).stored ≤ length i.stored + 0
    shorter =
        let order : i.stored ++ []
            ≡ chars (given_by call regs k i) ++ (after call regs k i).stored =
          exception-InOrder call regs k i prompt in
        omega (
          arith,
          ap length order,
          length-append i.stored [],
          length-append (chars (given_by call regs k i)) (after call regs k i).stored,
        )
exception-room (fault f) regs k i prompt room = (refl, omega arith)

room_next :
    (e : Exception) (regs : SavedRegisters) (k : Kernel) (i : Inbox) (later kept : List ℕ)
    → IsPrompt i
    → length i.stored + length (arriving e k ++ later) ≤ 128
    → (length (after e regs k i).stored + length later ≤ 128 → kept ≡ later)
    → accepted_by e k i ++ kept ≡ arriving e k ++ later
room_next e regs k i later kept prompt room rest =
    let both : length (arriving e k ++ later) ≡ length (arriving e k) + length later =
      length-append (arriving e k) later in
    let (all, bound) = exception-room e regs k i prompt (omega (arith, both)) in
    rw (all, rest (omega (arith, both, bound))) refl

trace-room :
    {host : Host} {n : ℕ} {k k' : Kernel} (r : Trace host n k k') (i : Inbox)
    → IsServed k i
    → length i.stored + length (arriving_in r) ≤ 128
    → accepted_in r i ≡ arriving_in r
trace-room (stop k) i v room = refl
trace-room (user n k k' k'' s r) i v room = trace-room r i (IsServed-user k k' i s v) room
trace-room {host} (handled n k k' k'' e regs mode allowed done r) i v room =
    room_next e regs k i (arriving_in r) (accepted_in r (after e regs k i)) v.no_lost room
      (trace-room r (after e regs k i) (handled-IsServed host e regs k k' i v mode allowed done))
trace-room {host} (tick n k k' k'' regs mode due done r) i v room =
    room_next interrupt regs k i (arriving_in r) (accepted_in r (after interrupt regs k i))
      v.no_lost room
      (trace-room r (after interrupt regs k i)
        (handled-IsServed host interrupt regs k k' i v mode tt done))

-- As long as the buffer has room for all that arrive, none of them is dropped: the characters that
-- are given to threads are those that were in the buffer and all that arrive, in this order, but
-- for those in the buffer at the end; and each thread of the table finds every character that it
-- is given, in its saved `r0` or in the `r0` with which its call returns. No thread is created in
-- the run with an argument larger than its stack.
pub none_dropped :
    (host : Host) (n : ℕ) (k k' : Kernel) (r : Trace host n k k') (i : Inbox) (t : ThreadPtr)
    → IsServed k i
    → t < 32
    → length (contents k.uart_ringbuffer) + length (arriving_in r) ≤ 128
    → (contents k.uart_ringbuffer ++ arriving_in r
        ≡ chars (given_in r i) ++ contents k'.uart_ringbuffer)
      × ReceivesIn t r i
none_dropped host n k k' r i t v small room =
    let (order, received) = characters_in_order host n k k' r i t v small in
    (
      ap (λ q. contents k.uart_ringbuffer ++ q) (sym (trace-room r i v (rw v.holds at room)))
          ∙ order,
      received,
    )
