-- ===== src/UserProgram.antt =====
-- user/syscalls.c, the calls that user code makes, and user/main.c, the program that uses them.
pub mod Calls
use betriebssysteme.Common.{
  ℕ, zero, suc, ◌-◌, ◌%◌, Bool, ◌&&◌, List, [], ◌∷◌, ◌++◌, ◌==◌, leb, if◌then◌else◌,
}
use betriebssysteme.Thread.{SavedRegisters}

-- `enum Syscall`, by its values.
abbrev pub syscall_exit_nr : ℕ
syscall_exit_nr = 0

abbrev pub syscall_create_thread_nr : ℕ
syscall_create_thread_nr = 1

abbrev pub syscall_getc_nr : ℕ
syscall_getc_nr = 2

abbrev pub syscall_putc_nr : ℕ
syscall_putc_nr = 3

abbrev pub syscall_sleep_nr : ℕ
syscall_sleep_nr = 4

abbrev pub syscall_kernel_exit_nr : ℕ
syscall_kernel_exit_nr = 5

abbrev pub syscall_undefined_nr : ℕ
syscall_undefined_nr = 6

-- The registers at the instruction `svc`, from those before the call; a caller reads the result in `r0`.
unfoldable pub syscall0 : ℕ → SavedRegisters → SavedRegisters
syscall0 sc regs = record regs { r0 = sc }

unfoldable pub syscall1 : ℕ → ℕ → SavedRegisters → SavedRegisters
syscall1 sc p1 regs = record regs { r0 = sc; r1 = p1 }

unfoldable pub syscall2 : ℕ → ℕ → ℕ → SavedRegisters → SavedRegisters
syscall2 sc p1 p2 regs = record regs { r0 = sc; r1 = p1; r2 = p2 }

unfoldable pub syscall3 : ℕ → ℕ → ℕ → ℕ → SavedRegisters → SavedRegisters
syscall3 sc p1 p2 p3 regs = record regs { r0 = sc; r1 = p1; r2 = p2; r3 = p3 }

unfoldable pub syscall4 : ℕ → ℕ → ℕ → ℕ → ℕ → SavedRegisters → SavedRegisters
syscall4 sc p1 p2 p3 p4 regs = record regs { r0 = sc; r1 = p1; r2 = p2; r3 = p3; r4 = p4 }

-- The calls, with their arguments.
pub data SystemCall : Type 0 where
  syscall_exit syscall_getc syscall_kernel_exit syscall_undefined : SystemCall
  syscall_create_thread : ℕ → ℕ → ℕ → SystemCall
  syscall_putc syscall_sleep : ℕ → SystemCall

-- The body of each of the functions of these names.
unfoldable pub issue : SystemCall → SavedRegisters → SavedRegisters
unfolding syscall0 syscall1 syscall3
issue syscall_exit = syscall0 syscall_exit_nr
issue (syscall_create_thread f args arg_size) = syscall3 syscall_create_thread_nr f args arg_size
issue syscall_getc = syscall0 syscall_getc_nr
issue (syscall_putc c) = syscall1 syscall_putc_nr c
issue (syscall_sleep cycles) = syscall1 syscall_sleep_nr cycles
issue syscall_kernel_exit = syscall0 syscall_kernel_exit_nr
issue syscall_undefined = syscall0 syscall_undefined_nr

-- `PRINT_COUNT`
abbrev pub print_count : ℕ
print_count = 10

-- The rounds of the loop of `worker_thread`; waiting in a loop makes no call.
unfoldable pub worker_loop : ℕ → ℕ → List SystemCall
worker_loop zero c = []
worker_loop (suc rounds) c =
    syscall_putc c
      ∷ (if leb b'A' c && leb c b'Z'
          then []
          else if leb b'a' c && leb c b'z'
          then syscall_sleep (c - b'a') ∷ []
          else syscall_sleep 1 ∷ [])
    ++ worker_loop rounds c

-- The calls that `worker_thread` makes for the character it is given, as long as it goes on.
unfoldable pub worker_thread : ℕ → List SystemCall
unfolding worker_loop
worker_thread c =
    (if c == b's' then syscall_undefined ∷ [] else [])
    ++ (if c == b'i' then [] else worker_loop print_count c)

-- What `main` does with a character: `worker` is the address of `worker_thread`, `local` that of the
-- variable that holds the character.
unfoldable pub main_reply : ℕ → ℕ → ℕ → SystemCall
main_reply worker local c =
    if c == b'S' then syscall_kernel_exit else syscall_create_thread worker local 1
