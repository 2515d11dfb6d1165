-- ===== src/Boot.antt =====
-- kernel/start.c and arch/cpu/exceptions/interrupts.c: what the kernel does before the first thread
-- runs.
use Prim.Native.Nat.{bit_and, bit_or}
use betriebssysteme.Common.{ℕ, ◌-◌, ◌^◌, [], replicate}
use betriebssysteme.Common.Words.{codes}
use betriebssysteme.Cpu.{Cpu}
use betriebssysteme.ExceptionPrint.Report.{put}
use betriebssysteme.Kernel.{Kernel, Cmd, ◌>>◌, step, ok}
use betriebssysteme.Kprintf.Print.{kprintf}
use betriebssysteme.RingBuffer.{RingBuff}
use betriebssysteme.Scheduler.{scheduler_start, scheduler_thread_create}
use betriebssysteme.Syscalls.{Host}
use betriebssysteme.Systick.{systick_init}
use betriebssysteme.Thread.{Layout, ThreadContext}
use betriebssysteme.Uart.{uart_init}

-- The buffer that `create_ringbuffer` makes for the UART.
abbrev pub fresh_ring : RingBuff
fresh_ring = record { head = 0; tail = 0; size = 128; mask = 127; buffer = replicate 128 0 }

unfoldable pub set_vbar : ℕ → Cpu → Cpu
set_vbar addr c = record c { vbar = addr }

-- The bit `i` of the program status register masks interrupts.
unfoldable pub enable_irq : Cpu → Cpu
enable_irq c = record c { cpsr = bit_and c.cpsr (2 ^ 32 - 1 - 2 ^ 7) }

unfoldable pub disable_irq : Cpu → Cpu
disable_irq c = record c { cpsr = bit_or c.cpsr (2 ^ 7) }

unfoldable pub setup_interrupts : Layout → Kernel → Kernel
unfolding set_vbar
setup_interrupts layout k = record k { cpu = set_vbar layout.ivt k.cpu }

-- `start_kernel` up to its message.
unfoldable pub set_up : Layout → Cmd (Unit {0})
set_up layout =
    step uart_init
    >> step systick_init
    >> step (setup_interrupts layout)
    >> put (kprintf (codes "=== Betriebssystem gestartet ===\n") [])

-- Its last two calls: it creates the main thread and starts the scheduler, which does not return but
-- goes on with the registers of the first thread.
unfoldable pub start_threads : Host → Cmd ThreadContext
start_threads host = scheduler_thread_create host.layout host.layout.user_main 0 0 >> λ k.
    let (k', user) = scheduler_start host.layout k in ok user k'

-- The hook `test_kernel`, which no file defines, is a parameter.
unfoldable pub start_kernel : Host → (Kernel → Kernel) → Cmd ThreadContext
unfolding set_up
start_kernel host test_kernel = set_up host.layout >> step test_kernel >> start_threads host
