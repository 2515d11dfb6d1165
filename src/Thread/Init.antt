-- ===== src/Thread/Init.antt =====
-- What `thread_init` of kernel/threading/thread.c sets up.
use betriebssysteme.Common.{ℕ, ◌+◌, ◌%◌, ◌^◌, ◌≤◌, ◌<◌, ◌≡◌, arith}
use betriebssysteme.Thread.{thread_stack_size, initial_sp}

-- For an argument that fits on the stack, the stack pointer is aligned to 8, and the argument lies
-- between it and the end of the stack.
pub initial_sp_bounds :
    (stack arg_size : ℕ)
    → stack % 8 ≡ 0
    → stack + thread_stack_size < 2 ^ 32
    → arg_size ≤ thread_stack_size
    → (initial_sp stack arg_size % 8 ≡ 0)
      × (stack ≤ initial_sp stack arg_size)
      × (initial_sp stack arg_size + arg_size ≤ stack + thread_stack_size)
      × (stack + thread_stack_size < initial_sp stack arg_size + arg_size + 8)
unfolding initial_sp
initial_sp_bounds stack arg_size aligned room fits = omega arith

-- A larger argument is put below the stack: `thread_init` does not check the size.
initial_sp_overflow :
    (stack arg_size : ℕ)
    → stack + thread_stack_size < 2 ^ 32
    → thread_stack_size < arg_size
    → arg_size ≤ stack + thread_stack_size
    → initial_sp stack arg_size < stack
unfolding initial_sp
initial_sp_overflow stack arg_size room large low = omega arith
