-- ===== src/System/Vectors.antt =====
-- arch/cpu/exceptions/ivt.S: how an exception enters its handler in C, and returns from it.
use betriebssysteme.Common.{ℕ, ◌≡◌}
use betriebssysteme.Common.Words.{add_u32, sub_u32}
use betriebssysteme.Handlers.User.{fiq, undefined_instruction, prefetch_abort, data_abort}
use betriebssysteme.Cpu.{Cpu}
use betriebssysteme.Kernel.{Kernel, ok}
use betriebssysteme.Syscalls.{Host}
use betriebssysteme.System.{Exception, interrupt, call, fault, handle, return_from}
use betriebssysteme.Thread.{SavedRegisters, ThreadContext}
use betriebssysteme.Thread.Frame.{frame_words, store_multiple, load_frame}
use betriebssysteme.Thread.Trampoline.{Stored}

-- The argument `offset` of the macro, for each exception.
unfoldable pub trampoline_offset : Exception → ℕ
trampoline_offset interrupt = 8
trampoline_offset call = 4
trampoline_offset (fault fiq) = 8
trampoline_offset (fault undefined_instruction) = 4
trampoline_offset (fault prefetch_abort) = 4
trampoline_offset (fault data_abort) = 8

-- What is pushed: `r0` to `r12`, and `lr` of the exception's mode, here in the place of `pc`, less the
-- offset. The frame on the stack does not reach around the end of the address space.
unfoldable pub pushed : ℕ → SavedRegisters → SavedRegisters
pushed offset regs = record regs { pc = sub_u32 regs.pc offset }

-- A handler in machine code: it gets the address of the frame in `r0`, and leaves the memory, word by
-- word, and the kernel's state.
abbrev pub Handler : Type 0
Handler = ℕ → (ℕ → ℕ) → Kernel → (ℕ → ℕ) × Kernel

-- The macro `exception_trampoline` in the handler of an exception, from the registers, the stack pointer
-- of the exception's mode and the memory to the registers behind `movs pc, lr`. The handler keeps the
-- stack pointer. `regs` are the registers of the exception's mode, `interrupted` those of the program
-- that it interrupted; they differ in `r8` to `r12` when the exception is a FIQ.
unfoldable pub exception_trampoline :
    Exception → Handler → SavedRegisters → SavedRegisters → ℕ → (ℕ → ℕ) → Kernel → ThreadContext
unfolding pushed store_multiple load_frame trampoline_offset
exception_trampoline e handler regs interrupted sp m k =
    let a : ℕ = sub_u32 sp 56 in
    let (m', k') =
      handler a (store_multiple m a (frame_words (pushed (trampoline_offset e) regs))) k in
    return_from e interrupted (load_frame m' a) k'.cpu

-- Machine code that does to a frame in memory what the handler of an exception does to it.
abbrev pub Implements : Handler → Exception → Host → Type 0
Implements h e host =
    (a : ℕ) (m : ℕ → ℕ) (frame : SavedRegisters) (k k' : Kernel)
    → Stored m a (frame_words frame)
    → handle e host frame k ≡ ok tt k'
    → let (m', j) = h a m k in Stored m' a (frame_words k'.frame) × (j ≡ k')

-- The value of `lr` in the exception's mode, if the processor is to go on at an address: behind an
-- interrupt at the instruction that it came before, behind the others at the one after that which
-- caused them.
abbrev pub link : Exception → ℕ → ℕ
link interrupt next = add_u32 next 4
link call next = next
link (fault fiq) next = add_u32 next 4
link (fault undefined_instruction) next = next
link (fault prefetch_abort) next = next
link (fault data_abort) next = add_u32 next 4
