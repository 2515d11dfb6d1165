-- ===== src/Lib.antt =====
-- The kernel of this repository, a small operating system for an ARM processor with preemptive
-- threads, as functions on a state, with the theorems that make it correct.
--
-- The parts. The scheduler (kernel/threading/scheduler.c) keeps 32 threads in a table and on three
-- intrusive lists (include/lib/list.h): ready, sleeping, and waiting for a character. An exception
-- stores a frame of registers on the stack of its mode; the scheduler saves it into the thread that
-- was running, and overwrites it, with the banked registers (arch/cpu/registers.c), by the context of
-- the thread that is to run next. Timer ticks (kernel/systick.c, arch/bsp/system_timer.c) preempt,
-- the UART (arch/bsp/uart.c, include/lib/ringbuffer.h) wakes a waiting thread, system calls create,
-- end and suspend threads.
--
-- The files:
--   Common        names from the library; numbers, words, bits and lists that the parts share
--   LinkedList    include/lib/list.h. A memory of `next` and `prev` fields (Links) by address. Chain
--                 says which list a memory holds, Insert and Remove what an operation does to it,
--                 Rings what it does to the other lists of the memory
--   RingBuffer    include/lib/ringbuffer.h; Fifo is the bounded queue that it implements
--   Cpu           arch/cpu/registers.c, include/arch/cpu/modes.h: banked registers by mode, the registers
--                 that describe a fault
--   Registers     the bit-fields of include/arch/cpu/registers.h and include/arch/bsp/uart.h: Fields says
--                 what a write leaves, Views how masks and fields agree
--   Mem           lib/mem.c; Copy is about the bytes that are written, Compare about the order of memcmp
--   Devices       arch/bsp/interrupt_controller.c, system_timer.c (its match flags: Flags) and yellow_led.c
--   Thread        kernel/threading/thread.c, trampolines.S, and the exception return of
--                 arch/cpu/exceptions/ivt.S; Trampoline and Frame are about the context of a thread and
--                 the frame of an exception as words of memory
--   Kernel        the state as one record: the globals of scheduler.c and uart.c, the processor, the
--                 memory and the devices
--   Scheduler     kernel/threading/scheduler.c, with the names of its functions. Spec is the
--                 abstract scheduler, three queues and the thread that runs; Inv ties the state to
--                 it; Turn, Tick, Sleepers, Arrive, Create and Start hold the proofs for the
--                 operations; Switch and Context are the context switch and what it keeps, Loads
--                 and Contexts what each operation saves and loads
--   Uart          arch/bsp/uart.c. Spec says what becomes of a character; Deliver proves it
--                 for the interrupt, Ask for a thread that asks for one. Given says which thread gets
--                 which of the characters that arrive, Rest what the driver leaves as it was, and
--                 Order in which order the characters go through the buffer
--   Systick       kernel/systick.c
--   Syscalls      kernel/syscalls.c; Spec says what each call does to the threads
--   Handlers      kernel/handlers.c, the entry points of all exceptions. User is about exceptions of
--                 user code, Effects about what each system call does
--   Boot          kernel/start.c and arch/cpu/exceptions/interrupts.c
--   System        the states that the kernel reaches from its boot, through any sequence of exceptions
--                 and of steps of user code and devices. Started is about the boot; Turns and Progress
--                 follow a ready thread through such a sequence, Rests and Sleepers a sleeping one,
--                 Preserved the registers of a thread that does not run, Characters, Received and
--                 Order the characters that the threads get, Output those that the kernel prints, Waits,
--                 Answered and Asks a thread that waits for a character, Resume what a thread goes on
--                 with behind an interrupt and behind each system call, and Vectors the assembly of
--                 arch/cpu/exceptions/ivt.S around the handlers
--   UserProgram   user/syscalls.c and user/main.c, as the system calls that they make; Calls sets the
--                 user's side of a call beside the kernel's
--   Ubsan         lib/ubsan.c, the handlers that report undefined behaviour
--   Kprintf       lib/kprintf.c: the printing of numbers in its buffer on the stack, the reading of
--                 formats (Format) and the formatter (Print). What is printed is a list of characters;
--                 Print/Spec says which, reading the format once, and Print/Renders proves it
--   ExceptionPrint  arch/cpu/exceptions/exception_print.c and arch/cpu/modes.c: the report that the
--                 exception handlers print
--   Tests         runs on concrete states
--
-- Addresses. Thread `t` of the table, and the list node in it, have the address `t` below 32. The
-- heads of the run queue, the sleep queue and the wait queue have 32, 33 and 34, the idle thread 35,
-- and 36 is the null pointer of `running_thread`. The functions of the scheduler get list heads as
-- arguments, as in the source. Machine words have 32 bits, with the wrap-around written out. The
-- addresses that the linker decides are the parameter Layout.
--
-- Loops. The loops over a list run on fuel of 33 rounds, one for each thread and one for the test
-- that ends the loop; no list holds more than 32 threads. The loop of the UART's interrupt handler
-- goes over the characters that the device holds; that of `kprintf` has the length of the format for
-- its fuel, since each round leaves a shorter one.
--
-- User code. Between two exceptions user code and devices may change all registers, the memory and
-- the device registers, but not the kernel's own variables: the processor has no memory protection
-- here, and a thread that writes to the kernel's data is outside the model. The idle thread makes no
-- system calls.
--
-- Undefined behaviour. A read or write past an array, the copy of a new thread's argument that is
-- larger than its stack (thread_init does not check), and an argument of `kprintf` that is missing
-- or of another type, is an outcome of its own (undefined), and so is a handler that stays in an
-- endless loop (halted); the theorems that a function returns exclude both. A fault whose status
-- the report cannot describe (31, for which the table is read behind its end) and a creation with an
-- argument larger than the stack are left out of the sequences of System. A banked access to the
-- registers of the current mode gives an unpredictable value, the same at each access.
--
-- FIQ. The mode of a FIQ has `r8` to `r12` of its own: the return from one leaves those of user mode as
-- the interrupted program had them, whatever thread goes on.
--
-- Not modelled: the assembly that sets up stacks and vectors (arch/cpu/entry.S); the endless idle
-- loop and the endless loop around `main_reply`; the waiting loop of a worker, which makes no call;
-- the hooks test_user and test_user_main, which no file defines; the hardware checks in tests. The
-- hook test_kernel, which no file defines either, is a parameter of `start_kernel`, and the
-- kernel's own registers at its system call are the parameter Host. The transmitter of the UART
-- always drains, so that the wait for it ends.
pub mod Common
pub mod LinkedList
pub mod RingBuffer
pub mod Cpu
pub mod Mem
pub mod Devices
pub mod Thread
pub mod Kernel
pub mod Scheduler
pub mod Uart
pub mod Systick
pub mod Syscalls
pub mod Handlers
pub mod Boot
pub mod Registers
pub mod System
pub mod UserProgram
pub mod Ubsan
pub mod Kprintf
pub mod ExceptionPrint
mod Tests
