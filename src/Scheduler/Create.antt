-- ===== src/Scheduler/Create.antt =====
-- scheduler_thread_create of kernel/threading/scheduler.c: when it returns.
use mathlib.Core.Path.{subst}
use betriebssysteme.Common.{
  ℕ, Option, none, some, leb, ◌≡◌, ◌≤◌, refl, sym, ap, arith, inl, inr, Bool-cases,
}
use betriebssysteme.Kernel.{Kernel, Run, ok, undefined}
use betriebssysteme.Scheduler.{
  find_free_thread_id, create_within, make_thread, add_thread, create_at, scheduler_thread_create,
}
use betriebssysteme.Thread.{
  ThreadPtr, Thread, Layout, zero_context, thread_init-fits, thread_init-exceeds, thread_stack_size,
}

create_at-fits :
    (layout : Layout) (fn arg arg_size : ℕ) (free : Option ThreadPtr) (k : Kernel)
    → arg_size ≤ thread_stack_size
    → create_at layout fn arg arg_size free k ≡ ok tt (create_within layout fn arg arg_size free k)
unfolding create_at create_within add_thread
create_at-fits layout fn arg arg_size none k le = refl
create_at-fits layout fn arg arg_size (some t) k le =
    let fresh : Thread = record (k.threads t) { id = t; context = zero_context } in
    ap (add_thread t k) (thread_init-fits layout t fn arg arg_size fresh k.memory le)

-- With an argument that fits the stack a creation returns.
pub thread_create-fits :
    (layout : Layout) (fn arg arg_size : ℕ) (k : Kernel)
    → arg_size ≤ thread_stack_size
    → scheduler_thread_create layout fn arg arg_size k
      ≡ ok tt (make_thread layout fn arg arg_size k)
unfolding scheduler_thread_create make_thread
thread_create-fits layout fn arg arg_size k le =
    create_at-fits layout fn arg arg_size (find_free_thread_id k) k le

create_at-either :
    (layout : Layout) (fn arg arg_size : ℕ) (free : Option ThreadPtr) (k : Kernel)
    (P : Run (Unit {0}) → Type 0)
    → P undefined
    → P (ok tt (create_within layout fn arg arg_size free k))
    → P (create_at layout fn arg arg_size free k)
unfolding create_at create_within add_thread
create_at-either layout fn arg arg_size none k P un fits = fits
create_at-either layout fn arg arg_size (some t) k P un fits =
    let fresh : Thread = record (k.threads t) { id = t; context = zero_context } in
    elim (Bool-cases (leb arg_size thread_stack_size)) [
      | inl e ↦
          subst (λ x. P (add_thread t k x))
            (sym (thread_init-fits layout t fn arg arg_size fresh k.memory (ground arith))) fits
      | inr e ↦
          subst (λ x. P (add_thread t k x))
            (sym (thread_init-exceeds layout t fn arg arg_size fresh k.memory e)) un
    ]

-- Without that bound it is undefined, or it returns.
pub thread_create-either :
    (layout : Layout) (fn arg arg_size : ℕ) (k : Kernel) (P : Run (Unit {0}) → Type 0)
    → P undefined
    → P (ok tt (make_thread layout fn arg arg_size k))
    → P (scheduler_thread_create layout fn arg arg_size k)
unfolding scheduler_thread_create make_thread
thread_create-either layout fn arg arg_size k =
    create_at-either layout fn arg arg_size (find_free_thread_id k) k
