-- ===== src/Handlers/Contexts.antt =====
-- kernel/handlers.c: what the exceptions leave of the saved registers of a ready thread.
use betriebssysteme.Common.{◌<◌, ◌≡◌, ◌≢◌, arith, refl, ◌∙◌, some, true, inl, inr, Bool-cases}
use betriebssysteme.Handlers.{handle_irq}
use betriebssysteme.Handlers.User.{arrived, gifts, is_due-same}
use betriebssysteme.Kernel.{Kernel, ok, num_threads}
use betriebssysteme.Scheduler.{
  scheduler_begin_exception, make_thread, find_free_thread_id, scheduler_tick_from_irq,
}
use betriebssysteme.Scheduler.Contexts.{
  program-create, program-terminate, program-wait, program-sleep, program,
}
use betriebssysteme.Scheduler.Inv.{IsValid, IsValid-cong}
use betriebssysteme.Handlers.Served.{IsServed-begin}
use betriebssysteme.Systick.{systick_handle_irq, next_period}
use betriebssysteme.Systick.Period.{is_due, systick_idle}
use betriebssysteme.Uart.Deliver.{handle_irq_refines}
use betriebssysteme.Uart.Rest.{SameRest-program}
use betriebssysteme.Uart.Spec.{Inbox, IsServed}
use betriebssysteme.Thread.{ThreadPtr, SavedRegisters, waiting, terminated}
use betriebssysteme.Scheduler.Loads.{Changes, Changes-from, tick-Changes}
use betriebssysteme.Handlers.Kept.{IsKept}
use mathlib.Core.Path.{subst}
use betriebssysteme.Scheduler.Arrive.{Free, find_free_thread_id-Free}

-- The thread number that the search finds is not that of a living thread.
free_other :
    (t : ThreadPtr) (k : Kernel)
    → (k.threads t).status ≢ terminated
    → find_free_thread_id k ≢ some t
free_other t k alive e =
    alive (subst (λ o. Free k.threads 0 num_threads o) e (find_free_thread_id-Free k)).2

pub program-IsKept : (t : ThreadPtr) → IsKept t (λ k. program k t)
unfolding make_thread
program-IsKept t = record {
  begins = λ regs k. refl;
  sends = λ cs k. refl;
  stores = λ b k. refl;
  terminates = λ k. program-terminate t k;
  waits = λ q k ne. program-wait t k ne q;
  sleeps = λ cycles k ne. program-sleep t k ne cycles;
  creates = λ layout fn arg size k alive.
      program-create t k layout fn arg size (find_free_thread_id k) (free_other t k alive);
}

pub tick_at :
    (k : Kernel) (i : Inbox)
    → IsServed k i
    → is_due k ≡ true
    → (k' : Kernel) × (systick_handle_irq k ≡ ok tt k')
      × Changes k k'
      × ((t : ThreadPtr) → t ≢ k.running → program k' t ≡ program k t)
unfolding systick_handle_irq
tick_at k i v due =
    let k0 : Kernel = record k { timer = next_period k.timer } in
    let valid : IsValid k0 i.queues =
      IsValid-cong k k0 i.queues v.scheduled refl refl (λ t. refl) in
    let (k', done, changes, contexts) = tick-Changes k0 i.queues valid v.started in
    let on : systick_handle_irq k ≡ scheduler_tick_from_irq k0 = ground arith in
    (k', on ∙ done, Changes-from k k0 k' refl refl refl changes, contexts)

-- An interrupt lets the running thread go on as it was, or saves it and loads another; the saved
-- registers of other threads that do not wait stay.
pub irq-Changes :
    (regs : SavedRegisters) (k : Kernel) (i : Inbox)
    → IsServed k i
    → (k' : Kernel) × (handle_irq regs k ≡ ok tt k')
      × Changes (scheduler_begin_exception regs k) k'
      × ((t : ThreadPtr)
          → t < 32
          → (k.threads t).status ≢ waiting
          → t ≢ k.running
          → program k' t ≡ program k t)
unfolding handle_irq scheduler_begin_exception
irq-Changes regs k i v =
    let k0 : Kernel = scheduler_begin_exception regs k in
    let (k1, done, v1, same) = handle_irq_refines k0 i (IsServed-begin regs k i v) in
    elim (Bool-cases (is_due k)) [
      | inl e ↦
          let (k2, end, changes, contexts) =
            tick_at k1 (arrived k i) v1 (is_due-same (gifts k i) k0 k1 same ∙ e) in
          rw done (
            k2,
            end,
            Changes-from k0 k1 k2 same.running same.frame same.cpu changes,
            λ t small busy ne.
                contexts t (λ x. ne (x ∙ same.running))
                ∙ SameRest-program (gifts k i) k0 k1 t same small busy,
          )
      | inr e ↦ rw done (
        k1,
        systick_idle k1 (is_due-same (gifts k i) k0 k1 same ∙ e),
        inl (record { running = same.running; frame = same.frame; cpu = same.cpu }),
        λ t small busy ne. SameRest-program (gifts k i) k0 k1 t same small busy,
      )
    ]
