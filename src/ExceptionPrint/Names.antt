-- ===== src/ExceptionPrint/Names.antt =====
-- arch/cpu/modes.c, and the description of a fault in arch/cpu/exceptions/exception_print.c.
use Prim.Native.Nat.{bit_and, bit_or}
use betriebssysteme.Common.{
  ℕ, ◌-◌, ◌/◌, ◌^◌, ◌≡◌, ◌↔◌, arith, refl, ◌⊎◌, inl, inr, Option, none, some, List, [], ◌∷◌, ◌==◌,
  ltb, if◌then◌else◌, get_elem?, get_elem?-eq-get_or, length, Bool-cases,
}
use betriebssysteme.Common.Words.{codes}
use betriebssysteme.Cpu.{
  cpu_mode_usr, cpu_mode_fiq, cpu_mode_irq, cpu_mode_svc, cpu_mode_abt, cpu_mode_und, cpu_mode_sys,
}

unfoldable pub get_mode_name : ℕ → List ℕ
get_mode_name mode =
    if mode == cpu_mode_usr
    then codes "User"
    else if mode == cpu_mode_fiq
    then codes "FIQ"
    else if mode == cpu_mode_irq
    then codes "IRQ"
    else if mode == cpu_mode_svc
    then codes "Supervisor"
    else if mode == cpu_mode_abt
    then codes "Abort"
    else if mode == cpu_mode_und
    then codes "Undefined"
    else if mode == cpu_mode_sys
    then codes "System"
    else codes "Invalid"

-- `fsr_sources`, where an entry that is not given is a null pointer.
unfoldable pub fsr_sources : List (Option (List ℕ))
fsr_sources =
    some (codes "No function, reset value")
    ∷ some (codes "Alignment fault")
    ∷ some (codes "Debug event fault")
    ∷ some (codes "Access Flag fault on Section")
    ∷ some (codes "Cache maintenance operation fault")
    ∷ some (codes "Translation fault on Section")
    ∷ some (codes "Access Flag fault on Page")
    ∷ some (codes "Translation fault on Page")
    ∷ some (codes "Precise External Abort")
    ∷ some (codes "Domain fault on Section")
    ∷ none
    ∷ some (codes "Domain fault on Page")
    ∷ some (codes "External abort on Section")
    ∷ some (codes "Permission fault on Section")
    ∷ some (codes "External abort on Page")
    ∷ some (codes "Permission fault on Page")
    ∷ some (codes "TLB conflict abort")
    ∷ none
    ∷ none
    ∷ none
    ∷ some (codes "Implementation definedf fault")
    ∷ none
    ∷ some (codes "External Abort")
    ∷ none
    ∷ some (codes "Asynchronous parity error on memory access")
    ∷ some (codes "Synchronous parity error on memory access")
    ∷ some (codes "Implementation defined fault")
    ∷ none
    ∷ some (codes "Synchronous parity error on translation table walk on section")
    ∷ none
    ∷ some (codes "Synchronous parity error on translation table walk on page")
    ∷ []

abbrev pub fsr_status_4_index : ℕ
fsr_status_4_index = 10

unfoldable pub fsr_status : ℕ → ℕ
fsr_status fsr =
    bit_or (bit_and fsr 0b1111)
      (bit_and fsr (2 ^ (fsr_status_4_index - 1)) / 2 ^ (fsr_status_4_index - 4 - 1))

-- `none` is a read behind the table.
abbrev pub describe : Option (Option (List ℕ)) → Option (List ℕ)
describe none = none
describe (some none) = some (codes "Invalid fault status register value")
describe (some (some description)) = some description

-- `sizeof(fsr_sources) / sizeof(const char *)` is the length of the table.
unfoldable pub get_fsr_description : ℕ → Option (List ℕ)
get_fsr_description fsr =
    if ltb (length fsr_sources) (fsr_status fsr)
    then some (codes "Invalid fault status register value")
    else describe (get_elem? fsr_sources (fsr_status fsr))

length-fsr_sources : length fsr_sources ≡ 31
unfolding fsr_sources
length-fsr_sources = refl

behind_table : get_elem? fsr_sources 31 ≡ none
unfolding fsr_sources
behind_table = refl

describe-some : (o : Option (List ℕ)) → (t : List ℕ) × (describe (some o) ≡ some t)
describe-some none = (_, refl)
describe-some (some t) = (t, refl)

-- Every status but 31 has a description.
pub fsr_described :
    (fsr : ℕ) → (fsr_status fsr ≡ 31 → ⊥) → (t : List ℕ) × (get_fsr_description fsr ≡ some t)
unfolding get_fsr_description
fsr_described fsr ne = elim (Bool-cases (ltb 31 (fsr_status fsr))) [
  | inl big ↦ rw (length-fsr_sources, big) (_, refl)
  | inr small ↦
      rw
        (
          length-fsr_sources,
          small,
          get_elem?-eq-get_or fsr_sources (fsr_status fsr) none
              (rw length-fsr_sources (ground arith)),
        )
        (describe-some _)
]

-- The description of a fault is read behind the end of its table exactly for the status 31.
pub fsr_bounds : (fsr : ℕ) → (get_fsr_description fsr ≡ none) ↔ (fsr_status fsr ≡ 31)
unfolding get_fsr_description
fsr_bounds fsr = (
  λ gone. elim (dec_eq (fsr_status fsr)) [
    | inl e ↦ e
    | inr ne ↦ let (t, known) = fsr_described fsr ne in ground arith
  ],
  λ e. rw (e, length-fsr_sources, behind_table) refl,
)
  where
    dec_eq : (n : ℕ) → (n ≡ 31) ⊎ (n ≡ 31 → ⊥)
    dec_eq n = ground arith
