-- ===== src/Thread/Trampoline.antt =====
-- kernel/threading/trampolines.S: how the assembly finds a context in memory, by the offsets of
-- include/kernel/threading/thread.h.
use betriebssysteme.Common.{
  ℕ, zero, suc, ◌+◌, ◌*◌, ◌≡◌, arith, refl, ap, ◌∙◌, some, List, [], ◌∷◌, ◌++◌, get_elem?, get_or,
  length,
}
use betriebssysteme.Cpu.{Cpu, psr_mode, read_spsr, read_lr_mode, read_sp_mode}
use betriebssysteme.Thread.{ThreadContext, thread_run_trampoline}
use mathlib.Core.Option

abbrev pub thread_context_regs : ℕ
thread_context_regs = 0

abbrev pub thread_context_pc : ℕ
thread_context_pc = 52

-- `struct thread_context` as words in memory, in the order of its members.
abbrev pub context_words : ThreadContext → List ℕ
context_words c =
    c.r0 ∷ c.r1 ∷ c.r2 ∷ c.r3 ∷ c.r4 ∷ c.r5 ∷ c.r6 ∷ c.r7 ∷ c.r8 ∷ c.r9 ∷ c.r10 ∷ c.r11 ∷ c.r12
    ∷ c.pc ∷ c.lr ∷ c.sp ∷ c.cpsr ∷ []

-- The memory, word by word, holds a list of words from an address on.
abbrev pub Stored : (ℕ → ℕ) → ℕ → List ℕ → Type 0
Stored m a [] = Unit {0}
Stored m a (v ∷ vs) = (m a ≡ v) × Stored m (a + 4) vs

-- `ldmia`: words from ascending addresses.
unfoldable pub load_multiple : ℕ → (ℕ → ℕ) → ℕ → List ℕ
load_multiple zero m a = []
load_multiple (suc n) m a = m a ∷ load_multiple n m (a + 4)

-- `movs pc, lr` with the registers that have been loaded.
unfoldable pub enter_thread : List ℕ → ℕ → Cpu → ThreadContext
unfolding read_lr_mode read_sp_mode read_spsr
enter_thread regs lr cpu = record {
  r0 = get_or regs 0 0;
  r1 = get_or regs 1 0;
  r2 = get_or regs 2 0;
  r3 = get_or regs 3 0;
  r4 = get_or regs 4 0;
  r5 = get_or regs 5 0;
  r6 = get_or regs 6 0;
  r7 = get_or regs 7 0;
  r8 = get_or regs 8 0;
  r9 = get_or regs 9 0;
  r10 = get_or regs 10 0;
  r11 = get_or regs 11 0;
  r12 = get_or regs 12 0;
  pc = lr;
  lr = read_lr_mode (psr_mode (read_spsr cpu)) cpu;
  sp = read_sp_mode (psr_mode (read_spsr cpu)) cpu;
  cpsr = read_spsr cpu;
}

-- `_thread_run_trampoline` with the address of the context in `r0`.
unfoldable pub run_trampoline : (ℕ → ℕ) → ℕ → Cpu → ThreadContext
unfolding load_multiple enter_thread
run_trampoline m r0 cpu =
    enter_thread (load_multiple 13 m (r0 + thread_context_regs)) (m (r0 + thread_context_pc)) cpu

pub load_multiple-Stored :
    (m : ℕ → ℕ) (vs ws : List ℕ) (a : ℕ)
    → Stored m a (vs ++ ws)
    → load_multiple (length vs) m a ≡ vs
unfolding load_multiple
load_multiple-Stored m [] ws a stored = refl
load_multiple-Stored m (v ∷ vs) ws a (here, rest) =
    rw (here, load_multiple-Stored m vs ws (a + 4) rest) refl

Stored-get :
    (m : ℕ → ℕ) (vs : List ℕ) (a i v : ℕ)
    → Stored m a vs
    → get_elem? vs i ≡ some v
    → m (a + 4 * i) ≡ v
Stored-get m [] a i v stored e = ground (arith, e)
Stored-get m (w ∷ ws) a zero v (here, rest) e =
    let same : a + 4 * 0 ≡ a = omega arith in ap m same ∙ here ∙ Option.some-injective w v e
Stored-get m (w ∷ ws) a (suc i) v (here, rest) e =
    let same : a + 4 * suc i ≡ a + 4 + 4 * i = omega arith in
    ap m same ∙ Stored-get m ws (a + 4) i v rest e

-- With a thread's context in memory, the assembly loads `r0` to `r12` and `pc` from its own members of
-- `struct thread_context`: a thread starts with the registers of its context and the banked ones.
pub run_trampoline-Stored :
    (m : ℕ → ℕ) (a : ℕ) (c : ThreadContext) (cpu : Cpu)
    → Stored m a (context_words c)
    → run_trampoline m a cpu ≡ thread_run_trampoline c cpu
unfolding run_trampoline enter_thread thread_run_trampoline
run_trampoline-Stored m a c cpu stored =
    let first : List ℕ =
      c.r0 ∷ c.r1 ∷ c.r2 ∷ c.r3 ∷ c.r4 ∷ c.r5 ∷ c.r6 ∷ c.r7 ∷ c.r8 ∷ c.r9 ∷ c.r10 ∷ c.r11 ∷ c.r12
      ∷ [] in
    let start : a + 0 ≡ a = omega arith in
    let loaded : load_multiple 13 m (a + 0) ≡ first =
      ap (load_multiple 13 m) start
      ∙ load_multiple-Stored m first (c.pc ∷ c.lr ∷ c.sp ∷ c.cpsr ∷ []) a stored in
    let entry : m (a + 52) ≡ c.pc = Stored-get m (context_words c) a 13 c.pc stored refl in
    ap (λ regs. enter_thread regs (m (a + 52)) cpu) loaded
    ∙ ap (λ lr. enter_thread first lr cpu) entry
