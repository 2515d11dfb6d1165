-- ===== src/Ubsan/Halts.antt =====
-- lib/ubsan.c: what each handler prints before it halts.
use mathlib.Core.List.{append-nil}
use Prim.Native.Nat.{bit_and}
use betriebssysteme.Common.Bits.{bit_and_mask}
use betriebssysteme.Common.{
  ◌<◌, zero, suc, get_or, Bool, not, ◌&&◌, ◌-◌, if◌then◌else◌, ap, ◌==◌, false, has-append, ℕ, ◌%◌,
  ◌^◌, ◌≡◌, arith, refl, inl, leb, true, List, [], ◌∷◌, ◌++◌, ◌∉◌, length,
}
use betriebssysteme.Common.Words.{codes}
use betriebssysteme.ExceptionPrint.Report.{put}
use betriebssysteme.Kernel.{Kernel, ok, halted, send, ◌>>◌}
use betriebssysteme.Kprintf.Format.{check_for_unknown_format, read_directive}
use betriebssysteme.Kprintf.Print.{Output, printed, number, text, kprintf, print_loop, convert}
use betriebssysteme.Kprintf.Print.Plain.{kprintf-plain, digits_of, print_unsigned-digits}
use betriebssysteme.Ubsan.{
  SourceLocation, TypeMismatchData, halt, print_source_location, ubsan_handler,
  handle_out_of_bounds, handler_names, mismatch_message, handle_type_mismatch_v1,
}

-- A place in the source as the handlers print it.
abbrev pub shown : SourceLocation → List ℕ
shown l =
    l.file_name
    ++ (b':' ∷ (digits_of (l.line % 2 ^ 32) 10 ++ (b':' ∷ digits_of (l.column % 2 ^ 32) 10)))

location_printed :
    (l : SourceLocation)
    → kprintf (codes "%s:%u:%u") (text l.file_name ∷ number l.line ∷ number l.column ∷ [])
      ≡ printed (shown l)
unfolding kprintf check_for_unknown_format print_loop read_directive convert
location_printed l =
    let none_needed : leb 0 (length l.file_name) ≡ true = ground arith in
    rw
      (
        none_needed,
        print_unsigned-digits (l.line % 2 ^ 32) 10 32 (omega arith) (inl refl),
        print_unsigned-digits (l.column % 2 ^ 32) 10 32 (omega arith) (inl refl),
      )
      (rw (append-nil (digits_of (l.column % 2 ^ 32) 10)) refl)

-- The state behind the three texts that a handler prints.
abbrev pub reported : List ℕ → SourceLocation → Kernel → Kernel
reported message l k = send (codes "\n") (send (shown l) (send message k))

line_end : kprintf (codes "\n") [] ≡ printed (codes "\n")
line_end = kprintf-plain (codes "\n") [] refl

location_put :
    (l : SourceLocation) (k : Kernel) → print_source_location l k ≡ ok tt (send (shown l) k)
unfolding print_source_location
location_put l k = ap (λ o. put o k) (location_printed l)

-- What the handlers share behind their message.
message_halts :
    (o : Output) (message : List ℕ) (l : SourceLocation) (k : Kernel)
    → o ≡ printed message
    → (put o >> print_source_location l >> put (kprintf (codes "\n") []) >> halt) k
      ≡ halted (reported message l k)
unfolding halt
message_halts o message l k e = rw (e, location_put l (send message k), line_end) refl

abbrev AllPlain : List (List ℕ) → Type 0
AllPlain [] = Unit {0}
AllPlain (x ∷ xs) = (b'%' ∉ x) × AllPlain xs

plain_at : (xs : List (List ℕ)) (n : ℕ) → AllPlain xs → n < length xs → b'%' ∉ get_or xs n []
plain_at [] n p lt = absurd (omega arith)
plain_at (x ∷ xs) zero (p, ps) lt = p
plain_at (x ∷ xs) (suc n) (p, ps) lt = plain_at xs n ps (omega arith)

names-AllPlain : AllPlain handler_names
unfolding handler_names
names-AllPlain = ground arith

-- The handler of each name prints the name and the place in the source, and halts.
pub ubsan_handler_halts :
    (n : ℕ) (l : SourceLocation) (k : Kernel)
    → n < length handler_names
    → let name : List ℕ = get_or handler_names n [] in
      ubsan_handler name l k
      ≡ halted (reported (codes "Undefined behavior detected: " ++ name ++ codes " at ") l k)
unfolding ubsan_handler
ubsan_handler_halts n l k lt =
    let name : List ℕ = get_or handler_names n [] in
    let message : List ℕ = codes "Undefined behavior detected: " ++ name ++ codes " at " in
    let plain : b'%' ∉ name = plain_at handler_names n names-AllPlain lt in
    message_halts _ message l k
      (kprintf-plain message [] (ground (arith, has-append b'%' name (codes " at "))))

index_printed :
    (index : ℕ)
    → kprintf
        (codes "Undefined behavior detected: out of bounds access index %u at ")
        (number index ∷ [])
      ≡ printed (
          codes "Undefined behavior detected: out of bounds access index "
          ++ digits_of (index % 2 ^ 32) 10
          ++ codes " at ")
unfolding kprintf check_for_unknown_format print_loop read_directive convert
index_printed index =
    rw (print_unsigned-digits (index % 2 ^ 32) 10 32 (omega arith) (inl refl)) refl

-- An access out of bounds is printed with its index and place, and halts.
pub out_of_bounds_halts :
    (l : SourceLocation) (index : ℕ) (k : Kernel)
    → handle_out_of_bounds l index k
      ≡ halted (
          reported
            (codes "Undefined behavior detected: out of bounds access index "
              ++ digits_of (index % 2 ^ 32) 10
              ++ codes " at ")
            l
            k)
unfolding handle_out_of_bounds
out_of_bounds_halts l index k = message_halts _ _ l k (index_printed index)

if-plain : (b : Bool) (x y : List ℕ) → b'%' ∉ x → b'%' ∉ y → b'%' ∉ (if b then x else y)
if-plain true x y px py = px
if-plain false x y px py = py

mismatch-plain : (log_alignment ptr : ℕ) → b'%' ∉ mismatch_message log_alignment ptr
unfolding mismatch_message
mismatch-plain log_alignment ptr = if-plain (ptr == 0) _ _ refl (
    if-plain (not (log_alignment == 0) && not (bit_and ptr (log_alignment - 1) == 0)) _ _ refl refl)

-- A mismatch is printed with its kind and place, and halts.
type_mismatch_halts :
    (d : TypeMismatchData) (ptr : ℕ) (k : Kernel)
    → handle_type_mismatch_v1 d ptr k
      ≡ halted (reported (mismatch_message d.log_alignment ptr) d.location k)
unfolding handle_type_mismatch_v1
type_mismatch_halts d ptr k =
    message_halts _ (mismatch_message d.log_alignment ptr) d.location k
      (kprintf-plain (mismatch_message d.log_alignment ptr) [] (mismatch-plain d.log_alignment ptr))

-- An access to a word, whose alignment has the logarithm 2, at an address that is two beyond a multiple
-- of four is not reported as unaligned.
unaligned_missed :
    (ptr : ℕ)
    → ptr % 4 ≡ 2
    → mismatch_message 2 ptr ≡ codes "Undefined behavior detected: type mismatch at "
unfolding mismatch_message
unaligned_missed ptr e =
    let masked : bit_and ptr 1 ≡ ptr % 2 = bit_and_mask ptr 1 in
    let even : (bit_and ptr 1 == 0) ≡ true = ground arith in
    let not_null : (ptr == 0) ≡ false = ground arith in rw (not_null, even) refl
