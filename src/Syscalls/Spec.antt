-- ===== src/Syscalls/Spec.antt =====
-- What each system call of kernel/syscalls.c does to the threads and the buffered characters.
use betriebssysteme.Common.{ℕ, ◌==◌, if◌then◌else◌, Option}
use betriebssysteme.Scheduler.Arrive.{created}
use betriebssysteme.Scheduler.Spec
use betriebssysteme.Scheduler.Spec.{Queues}
use betriebssysteme.Thread.{ThreadPtr}
use betriebssysteme.Uart.Spec.{Inbox, ask_from}

abbrev pub with_queues : (Queues → Queues) → Inbox → Inbox
with_queues f i = record i { queues = f i.queues }

-- The system call `number`, when `free` is the lowest free thread number. An unknown number ends the
-- thread.
abbrev pub perform : ℕ → Option ThreadPtr → Inbox → Inbox
perform number free i =
    if number == 1
    then with_queues (created free) i
    else if number == 2
    then ask_from i.stored i
    else if number == 3
    then i
    else if number == 4
    then with_queues Spec.sleep_current i
    else with_queues Spec.terminate i
