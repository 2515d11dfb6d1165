-- ===== src/Uart.antt =====
-- arch/bsp/uart.c: the driver of the serial line, behind which threads wait for characters.
pub mod Spec
pub mod Given
pub mod Rest
pub mod Order
pub mod Deliver
pub mod Ask
use Prim.Native.Nat.{bit_and, bit_or}
use betriebssysteme.Common.{
  ℕ, ◌-◌, ◌%◌, ◌^◌, Bool, Option, none, some, List, [], ◌∷◌, if◌then◌else◌,
}
use betriebssysteme.Common.Words.{test_bit}
use betriebssysteme.Devices.InterruptController.{uart_irq, interrupt_controller_enable_irq}
use betriebssysteme.Kernel.{Kernel, Uart, uart_wait_queue, ok, halted, Cmd, and_then, send}
use betriebssysteme.RingBuffer.{RingBuff, buff_is_empty, buff_getc, buff_putc}
use betriebssysteme.Registers.{write_field, fen_field}
use betriebssysteme.Scheduler.{
  Result, result_ok, result_error, scheduler_notify_one_from_irq, scheduler_wait_running_from_irq,
  scheduler_prepare_svc_return,
}

-- `UART_RX` of `enum uart_irq`.
abbrev pub uart_rx : ℕ
uart_rx = 4

unfoldable pub uart_enable_irq : ℕ → Uart → Uart
uart_enable_irq irq u = record u { imsc = bit_or u.imsc (2 ^ irq) }

unfoldable pub uart_disable_irq : ℕ → Uart → Uart
uart_disable_irq irq u = record u { imsc = bit_and u.imsc (2 ^ 32 - 1 - 2 ^ irq) }

unfoldable pub uart_check_irq : ℕ → Uart → Bool
uart_check_irq irq u = test_bit u.mis irq

unfoldable pub uart_clear_irq : ℕ → Uart → Uart
uart_clear_irq irq u = record u { icr = 2 ^ irq }

unfoldable pub uart_init : Kernel → Kernel
unfolding uart_enable_irq
uart_init k =
    let u : Uart = k.uart in
    record k {
      uart = uart_enable_irq uart_rx (record u { lcrh = write_field fen_field 0 u.lcrh });
      irqs = interrupt_controller_enable_irq uart_irq k.irqs;
    }

-- What follows `scheduler_notify_one_from_irq`, with its result.
unfoldable pub keep_char : ℕ → Result → Cmd (Unit {0})
keep_char c result_ok k = ok tt k
keep_char c result_error k =
    ok tt (record k { uart_ringbuffer = (buff_putc k.uart_ringbuffer c).1 })

-- `while (!UART->fr.d.rxfe)`, over the values that `UART->dr` delivers; `char` has eight bits.
unfoldable pub receive_loop : List ℕ → Cmd (Unit {0})
receive_loop [] k = let u : Uart = k.uart in ok tt (record k { uart = record u { rx = [] } })
receive_loop (dr ∷ rest) k =
    let u : Uart = k.uart in
    and_then
      (and_then
        (scheduler_notify_one_from_irq uart_wait_queue (dr % 256)
          (record k { uart = record u { rx = rest } }))
        (keep_char (dr % 256)))
      (λ _. receive_loop rest)

unfoldable pub uart_handle_irq : Cmd (Unit {0})
uart_handle_irq k =
    if uart_check_irq uart_rx k.uart
    then receive_loop k.uart.rx (record k { uart = uart_clear_irq uart_rx k.uart })
    else ok tt k

-- A character from the buffer; without one, the loop ends only through an interrupt.
unfoldable pub uart_getc : Cmd ℕ
uart_getc k = elim (buff_getc k.uart_ringbuffer) [
  | none ↦ halted k
  | some (c, b) ↦ ok c (record k { uart_ringbuffer = b })
]

-- The branch of `uart_user_getc` for a buffer that is not empty.
unfoldable pub return_char : Option (ℕ × RingBuff) → Cmd (Unit {0})
return_char none k = halted k
return_char (some (c, b)) k =
    ok tt (scheduler_prepare_svc_return c (record k { uart_ringbuffer = b }))

unfoldable pub uart_user_getc : Cmd (Unit {0})
uart_user_getc k =
    if buff_is_empty k.uart_ringbuffer
    then ok tt (scheduler_wait_running_from_irq uart_wait_queue k)
    else return_char (buff_getc k.uart_ringbuffer) k

unfoldable pub uart_putc : ℕ → Kernel → Kernel
uart_putc c k = send (c % 256 ∷ []) k
