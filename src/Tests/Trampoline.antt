-- ===== src/Tests/Trampoline.antt =====
-- kernel/threading/trampolines.S and arch/cpu/exceptions/ivt.S, with a context or a frame in memory.
use betriebssysteme.Common.{ℕ, ◌-◌, ◌/◌, ◌≡◌, arith, get_or}
use betriebssysteme.Handlers.{handle_irq}
use betriebssysteme.Handlers.Call.{Returns}
use betriebssysteme.Handlers.User.{irq_refines, ticked, arrived}
use betriebssysteme.Kernel.{Kernel, Run, ok}
use betriebssysteme.System.{Exception, handle}
use betriebssysteme.System.Vectors.{Handler}
use betriebssysteme.Tests.System.{host, busy, busy-IsServed, main_alone}
use betriebssysteme.Tests.Threads.{cpu, no_registers}
use betriebssysteme.Thread.{zero_context, thread_run_trampoline, ThreadContext, SavedRegisters}
use betriebssysteme.Thread.Frame.{frame_words, store_multiple, load_frame}
use betriebssysteme.Thread.Trampoline.{Stored, context_words, run_trampoline, run_trampoline-Stored}

-- The context of a thread, and a memory that holds it.
abbrev saved_context : ThreadContext
saved_context = record zero_context { r0 = 65; r5 = 7; r12 = 12; pc = 33_000; sp = 1_052_664 }

abbrev context_memory : ℕ → ℕ
context_memory a = get_or (context_words saved_context) ((a - 4096) / 4) 0

in_memory : Stored context_memory 4096 (context_words saved_context)
in_memory = omega arith

run_trampoline-Stored_example :
    run_trampoline context_memory 4096 cpu ≡ thread_run_trampoline saved_context cpu
run_trampoline-Stored_example =
    run_trampoline-Stored context_memory 4096 saved_context cpu in_memory

-- A handler in machine code: it reads the frame, and writes the one that the handler in C leaves.
abbrev write_back : ℕ → (ℕ → ℕ) → Kernel → Run (Unit {0}) → (ℕ → ℕ) × Kernel
write_back a m k (ok done k') = (store_multiple m a (frame_words k'.frame), k')
write_back a m k _ = (m, k)

abbrev compiled : Exception → Handler
unfolding load_frame
compiled e a m k = write_back a m k (handle e host (load_frame m a) k)

-- The registers when the interrupt comes, before the instruction at 33000.
abbrev interrupted : SavedRegisters
interrupted = record no_registers { r3 = 5; pc = 33_004 }

abbrev on_stack : SavedRegisters
on_stack = record no_registers { r3 = 5; pc = 32_996 }

abbrev served : Returns (handle_irq on_stack busy) (ticked busy (arrived busy main_alone))
served = irq_refines on_stack busy main_alone busy-IsServed
