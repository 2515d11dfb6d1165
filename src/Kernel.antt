-- ===== src/Kernel.antt =====
-- The state that the kernel's parts share: the globals of kernel/threading/scheduler.c and
-- arch/bsp/uart.c, the processor, the memory and the devices.
use betriebssysteme.Common.{ℕ, Bool, List, ◌++◌, update}
use betriebssysteme.Cpu.{Cpu}
use betriebssysteme.Devices.InterruptController.{InterruptControllerRegs}
use betriebssysteme.Devices.SystemTimer.{SystemTimerRegs}
use betriebssysteme.LinkedList.{Ptr, Links}
use betriebssysteme.Mem.{Memory}
use betriebssysteme.RingBuffer.{RingBuff}
use betriebssysteme.Thread.{ThreadPtr, Thread, SavedRegisters}

abbrev pub num_threads : ℕ
num_threads = 32

-- Addresses of list nodes: thread `t` of `scheduler_threads` has its `queue` at `t`, the three list
-- heads follow, and then the `queue` of `idle_thread`.
abbrev pub run_queue : Ptr
run_queue = 32

abbrev pub sleep_queue : Ptr
sleep_queue = 33

abbrev pub uart_wait_queue : Ptr
uart_wait_queue = 34

abbrev pub idle_thread : ThreadPtr
idle_thread = 35

-- The null pointer, which `running_thread` is before the scheduler starts.
abbrev pub null_thread : ThreadPtr
null_thread = 36

-- `struct uart`, with the device's own queues: `rx` holds the characters that `dr` still delivers,
-- `tx` all that were written to it, oldest first. The transmitter always drains in the end, so a
-- wait on `fr.d.txff` comes to an end and changes nothing.
pub record Uart : Type 0 where
  pub rx : List ℕ
  pub tx : List ℕ
  pub lcrh : ℕ
  pub imsc : ℕ
  pub mis : ℕ
  pub icr : ℕ

pub record Kernel : Type 0 where
  pub threads : ThreadPtr → Thread
  pub running : ThreadPtr
  -- The frame that `exception_frame` points at.
  pub frame : SavedRegisters
  pub links : Links
  pub is_running : Bool
  pub cpu : Cpu
  pub memory : Memory
  pub uart : Uart
  pub uart_ringbuffer : RingBuff
  pub irqs : InterruptControllerRegs
  pub timer : SystemTimerRegs

-- How a function of the kernel ends: it returns, it stays in an endless loop for good, it reaches what
-- C leaves undefined, or the fuel of a loop of the model ran out.
pub data Run (A : Type 0) : Type 0 where
  ok : A → Kernel → Run A
  halted : Kernel → Run A
  undefined : Run A
  out_of_fuel : Run A

abbrev pub Cmd : Type 0 → Type 0
Cmd A = Kernel → Run A

abbrev pub and_then : {A B : Type 0} → Run A → (A → Cmd B) → Run B
and_then (ok a k) f = f a k
and_then (halted k) f = halted k
and_then undefined f = undefined
and_then out_of_fuel f = out_of_fuel

infixl 5 ◌>>=◌ ◌>>◌
abbrev pub ◌>>=◌ : {A B : Type 0} → Cmd A → (A → Cmd B) → Cmd B
m >>= f = λ k. and_then (m k) f

abbrev pub ◌>>◌ : {B : Type 0} → Cmd (Unit {0}) → Cmd B → Cmd B
m >> n = m >>= λ _. n

-- A step that always returns.
abbrev pub step : (Kernel → Kernel) → Cmd (Unit {0})
step f k = ok tt (f k)

abbrev pub set_thread : ThreadPtr → Thread → Kernel → Kernel
set_thread t v k = record k { threads = update k.threads t v }

-- Characters sent through the UART, one after the other.
abbrev pub send : List ℕ → Kernel → Kernel
send cs k = let u : Uart = k.uart in record k { uart = record u { tx = u.tx ++ cs } }
