-- ===== src/Uart/Spec.antt =====
-- What arch/bsp/uart.c promises: a character goes to the thread that waits longest, or is kept until
-- a thread asks for it; no thread waits while a character is kept.
use betriebssysteme.Common.{ℕ, ◌%◌, ◌≡◌, ◌⊎◌, true, List, [], ◌∷◌}
use betriebssysteme.Kernel.{Kernel}
use betriebssysteme.RingBuffer.Fifo
use betriebssysteme.RingBuffer.Inv as RingInv
use betriebssysteme.RingBuffer.Refine.{contents}
use betriebssysteme.Scheduler.Inv.{IsValid}
use betriebssysteme.Scheduler.Spec
use betriebssysteme.Scheduler.Spec.{Queues, notify_from}
use betriebssysteme.Thread.{ThreadPtr}

-- `UART_INPUT_BUFFER_SIZE`
abbrev pub uart_input_buffer_size : ℕ
uart_input_buffer_size = 128

pub record Inbox : Type 0 where
  pub queues : Queues
  pub stored : List ℕ

abbrev pub arrive_from : List ThreadPtr → ℕ → Inbox → Inbox
arrive_from [] c i = record i { stored = (Fifo.push uart_input_buffer_size i.stored c).1 }
arrive_from (t ∷ ts) c i = record i { queues = (notify_from (t ∷ ts) i.queues).1 }

unfoldable pub arrive_all : List ℕ → Inbox → Inbox
arrive_all [] i = i
arrive_all (dr ∷ rest) i = arrive_all rest (arrive_from i.queues.wait (dr % 256) i)

-- A thread that asks for a character gets the oldest one, or waits.
abbrev pub ask_from : List ℕ → Inbox → Inbox
ask_from [] i = record i { queues = Spec.wait_current i.queues }
ask_from (c ∷ q) i = record i { stored = q }

-- The kernel's scheduler and ring buffer hold the inbox.
pub record IsServed (k : Kernel) (i : Inbox) : Type 0 where
  pub scheduled : IsValid k i.queues
  pub buffer : RingInv.IsValid 7 k.uart_ringbuffer
  pub holds : contents k.uart_ringbuffer ≡ i.stored
  pub started : k.is_running ≡ true
  pub no_lost : (i.queues.wait ≡ []) ⊎ (i.stored ≡ [])
