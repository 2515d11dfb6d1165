-- ===== src/Handlers/User.antt =====
-- kernel/handlers.c, as a whole: what each exception does to the threads and the characters.
use mathlib.Core.Path.{subst}
use betriebssysteme.Common.{
  ℕ, ◌<◌, ◌≤◌, ◌≡◌, ◌≢◌, arith, refl, ◌∙◌, Bool, true, false, List, [], ◌∷◌, ◌++◌, ◌==◌, leb,
  if◌then◌else◌, inl, inr, Bool-cases, ==_iff,
}
use betriebssysteme.Common.Words.{test_bit, codes}
use betriebssysteme.Cpu.{
  cpu_mode_usr, psr_mode, read_spsr, cpu_mode_svc, current_bank, bank_of_mode, Cpu, read_dfsr,
  read_ifsr,
}
use betriebssysteme.Handlers.{
  handle_irq, handle_svc, end_thread, handle_fiq, handle_undefined_instruction,
  handle_prefetch_abort, handle_data_abort,
}
use betriebssysteme.Handlers.Served.{IsServed-begin, IsServed-send, terminate-IsServed}
use betriebssysteme.ExceptionPrint.Names.{fsr_status}
use betriebssysteme.ExceptionPrint.Report.{print_exception_infos}
use betriebssysteme.ExceptionPrint.Report.Defined.{infos_sent, report}
use betriebssysteme.Kernel.{send, and_then, Kernel, ok, halted, Cmd}
use betriebssysteme.Scheduler.{
  find_free_thread_id, scheduler_begin_exception, scheduler_thread_terminate_running_from_irq,
}
use betriebssysteme.Scheduler.Spec
use betriebssysteme.Scheduler.Wake.{counter}
use betriebssysteme.Syscalls.{Host, enter_svc, sys_kernel_exit}
use betriebssysteme.Syscalls.Spec.{perform, with_queues}
use betriebssysteme.Systick.Period.{is_due, systick_refines, systick_idle}
use betriebssysteme.Thread.{SavedRegisters, thread_stack_size}
use betriebssysteme.Uart.{uart_rx}
use betriebssysteme.Uart.Deliver.{handle_irq_refines}
use betriebssysteme.Uart.Given.{Gifts, given_all}
use betriebssysteme.Uart.Rest.{SameRest}
use betriebssysteme.Uart.Spec.{Inbox, IsServed, arrive_all}
use betriebssysteme.Handlers.Call.{
  Returns, known_number, unknown_call, last_call, svc_of_kernel_halts, svc_report,
}

-- The registers with which `sys_kernel_exit` makes its own supervisor call, and the report of it.
abbrev exit_frame : Host → Kernel → SavedRegisters
exit_frame host k = let frame : SavedRegisters = host.kernel_registers k in record frame { r0 = 6 }

abbrev pub exit_report : Host → SavedRegisters → Kernel → List ℕ
unfolding scheduler_begin_exception
exit_report host regs k =
    svc_report (exit_frame host (scheduler_begin_exception regs k)) (enter_svc k.cpu)

-- The processor knows that the call came from SVC mode.
entered-mode :
    (cpu : Cpu)
    → psr_mode cpu.cpsr ≡ cpu_mode_svc
    → (psr_mode (read_spsr (enter_svc cpu)) == cpu_mode_usr) ≡ false
unfolding read_spsr enter_svc current_bank bank_of_mode
entered-mode cpu here = ground arith

module _ (host : Host) (regs : SavedRegisters) (k : Kernel) (i : Inbox) (v : IsServed k i) where
  -- A supervisor call of a user thread, for every number but that of `sys_kernel_exit`, returns and
  -- changes the queues and the stored characters as the number asks for, if the argument of a new
  -- thread fits its stack.
  pub svc_refines :
      i.queues.current < 32
      → psr_mode (read_spsr k.cpu) ≡ cpu_mode_usr
      → regs.r0 ≢ 5
      → (regs.r0 ≡ 1 → regs.r3 ≤ thread_stack_size)
      → Returns (handle_svc host regs k) (perform regs.r0 (find_free_thread_id k) i)
  unfolding handle_svc scheduler_begin_exception find_free_thread_id
  svc_refines user mode ne fits =
      let k0 : Kernel = scheduler_begin_exception regs k in
      let v0 : IsServed k0 i = IsServed-begin regs k i v in
      let usr : (psr_mode (read_spsr k.cpu) == cpu_mode_usr) ≡ true = (==_iff _ _).1 mode in
      elim (Bool-cases (leb 6 regs.r0)) [
        | inl e ↦ rw usr (unknown_call host regs k0 i v0 (ground arith))
        | inr e ↦ rw usr (known_number host regs k0 i v0 user (ground arith) fits)
      ]

  -- The call of `sys_kernel_exit` from user mode stops the kernel: the supervisor call that it
  -- makes goes through the same handler, which knows by the saved mode that the kernel made it;
  -- its report is sent, then an end-of-transmission character, and no thread is changed. The
  -- handler of supervisor calls runs in SVC mode.
  pub kernel_exit_halts :
      psr_mode (read_spsr k.cpu) ≡ cpu_mode_usr
      → psr_mode k.cpu.cpsr ≡ cpu_mode_svc
      → regs.r0 ≡ 5
      → (k' : Kernel) × (handle_svc host regs k ≡ halted k')
        × (k'.uart.tx ≡ (k.uart.tx ++ exit_report host regs k) ++ 4 ∷ [])
        × (k'.threads ≡ k.threads)
        × (k'.running ≡ k.running)
  unfolding handle_svc sys_kernel_exit scheduler_begin_exception
  kernel_exit_halts mode here e =
      let usr : (psr_mode (read_spsr k.cpu) == cpu_mode_usr) ≡ true = (==_iff _ _).1 mode in
      let k0 : Kernel = scheduler_begin_exception regs k in
      let k1 : Kernel = record k0 { cpu = enter_svc k.cpu } in
      let frame : SavedRegisters = exit_frame host k0 in
      (
        send (4 ∷ [])
            (send (svc_report frame (enter_svc k.cpu)) (scheduler_begin_exception frame k1)),
        rw (usr, last_call host regs k0 e, entered-mode k.cpu here) (svc_of_kernel_halts frame k1),
        refl,
        refl,
        refl,
      )

-- The exceptions that end a user thread, and their handlers.
pub data Fault : Type 0 where
  fiq undefined_instruction prefetch_abort data_abort : Fault

abbrev pub handle_fault : Fault → SavedRegisters → Cmd (Unit {0})
handle_fault fiq = handle_fiq
handle_fault undefined_instruction = handle_undefined_instruction
handle_fault prefetch_abort = handle_prefetch_abort
handle_fault data_abort = handle_data_abort

-- The status of the fault that the report describes is not the one behind the table of descriptions.
abbrev pub IsDescribed : Fault → Cpu → Type 0
IsDescribed fiq cpu = Unit {0}
IsDescribed undefined_instruction cpu = Unit {0}
IsDescribed prefetch_abort cpu = fsr_status (read_ifsr cpu) ≢ 31
IsDescribed data_abort cpu = fsr_status (read_dfsr cpu) ≢ 31

pub end_thread-usr :
    (k : Kernel)
    → psr_mode (read_spsr k.cpu) ≡ cpu_mode_usr
    → end_thread k ≡ ok tt (scheduler_thread_terminate_running_from_irq k)
unfolding end_thread
end_thread-usr k mode = ground arith

-- The report of each fault.
abbrev pub fault_report : Fault → SavedRegisters → Cpu → List ℕ
fault_report fiq = report (codes "Fast Interrupt") false false
fault_report undefined_instruction = report (codes "Undefined Instruction") false false
fault_report prefetch_abort = report (codes "Prefetch Abort") false true
fault_report data_abort = report (codes "Data Abort") true false

module _ (regs : SavedRegisters) (k : Kernel) where
  fault_at :
      (name : List ℕ) (d p : Bool)
      → psr_mode (read_spsr k.cpu) ≡ cpu_mode_usr
      → (d ≡ true → fsr_status (read_dfsr k.cpu) ≢ 31)
      → (p ≡ true → fsr_status (read_ifsr k.cpu) ≢ 31)
      → and_then
          (print_exception_infos name d p regs (scheduler_begin_exception regs k))
          (λ _. end_thread)
        ≡ ok tt (
            scheduler_thread_terminate_running_from_irq
              (send (report name d p regs k.cpu) (scheduler_begin_exception regs k)))
  unfolding scheduler_begin_exception
  fault_at name d p mode data_ne prefetch_ne =
      let k0 : Kernel = scheduler_begin_exception regs k in
      rw (infos_sent name d p regs k0 data_ne prefetch_ne) (end_thread-usr (send _ k0) mode)

  -- A fault of a user thread is reported and the thread terminated.
  pub fault_done :
      (f : Fault)
      → psr_mode (read_spsr k.cpu) ≡ cpu_mode_usr
      → IsDescribed f k.cpu
      → handle_fault f regs k
        ≡ ok tt (
            scheduler_thread_terminate_running_from_irq
              (send (fault_report f regs k.cpu) (scheduler_begin_exception regs k)))
  unfolding handle_fiq handle_undefined_instruction handle_prefetch_abort handle_data_abort
  fault_done fiq mode known = fault_at (codes "Fast Interrupt") false false mode (λ e. cc) (λ e. cc)
  fault_done undefined_instruction mode known =
      fault_at (codes "Undefined Instruction") false false mode (λ e. cc) (λ e. cc)
  fault_done prefetch_abort mode known =
      fault_at (codes "Prefetch Abort") false true mode (λ e. cc) (λ e. known)
  fault_done data_abort mode known =
      fault_at (codes "Data Abort") true false mode (λ e. known) (λ e. cc)

module _ (regs : SavedRegisters) (k : Kernel) (i : Inbox) (v : IsServed k i) where
  -- A fault of a user thread ends that thread, and the next ready thread runs. The condition is that
  -- the status of an abort is not the one behind the table of descriptions.
  pub fault_refines :
      (f : Fault)
      → psr_mode (read_spsr k.cpu) ≡ cpu_mode_usr
      → IsDescribed f k.cpu
      → Returns (handle_fault f regs k) (with_queues Spec.terminate i)
  fault_refines f mode known =
      let k0 : Kernel = scheduler_begin_exception regs k in
      let cs : List ℕ = fault_report f regs k.cpu in
      (
        _,
        fault_done regs k f mode known,
        terminate-IsServed (send cs k0) i (IsServed-send cs k0 i (IsServed-begin regs k i v)),
      )

-- The characters that the UART holds when its interrupt is pending, delivered.
abbrev pub arrived : Kernel → Inbox → Inbox
arrived k i = if test_bit k.uart.mis uart_rx then arrive_all k.uart.rx i else i

-- To whom they go.
abbrev pub gifts : Kernel → Inbox → Gifts
gifts k i = if test_bit k.uart.mis uart_rx then given_all k.uart.rx i else []

-- Then the tick, if the timer's interrupt is due.
abbrev pub ticked : Kernel → Inbox → Inbox
ticked k i = if is_due k then with_queues (Spec.tick (counter k)) i else i

pub is_due-same : (gs : Gifts) (k k' : Kernel) → SameRest gs k k' → is_due k' ≡ is_due k
is_due-same gs k k' same = rw (same.irqs, same.timer) refl

module _ (regs : SavedRegisters) (k : Kernel) (i : Inbox) (v : IsServed k i) where
  -- An interrupt first delivers the characters that have arrived, then runs a tick if one is due. The
  -- handler always returns.
  pub irq_refines : Returns (handle_irq regs k) (ticked k (arrived k i))
  unfolding handle_irq scheduler_begin_exception
  irq_refines =
      let k0 : Kernel = scheduler_begin_exception regs k in
      let (k1, done, v1, same) = handle_irq_refines k0 i (IsServed-begin regs k i v) in
      let due : is_due k1 ≡ is_due k = is_due-same (gifts k i) k0 k1 same in
      elim (Bool-cases (is_due k)) [
        | inl e ↦
            let (k2, end, v2, period) = systick_refines k1 (arrived k i) v1 (due ∙ e) in
            rw (done, e)
              (
                k2,
                end,
                subst (λ c. IsServed k2 (with_queues (Spec.tick c) (arrived k i))) same.counters v2,
              )
        | inr e ↦ rw (done, e) (k1, systick_idle k1 (due ∙ e), v1)
      ]
