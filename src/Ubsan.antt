-- ===== src/Ubsan.antt =====
-- lib/ubsan.c: the handlers that the sanitizer's checks call.
pub mod Halts
use Prim.Native.Nat.{bit_and}
use betriebssysteme.Common.{ℕ, ◌-◌, Bool, not, ◌&&◌, List, [], ◌∷◌, ◌++◌, ◌==◌, if◌then◌else◌}
use betriebssysteme.Common.Words.{codes}
use betriebssysteme.ExceptionPrint.Report.{put}
use betriebssysteme.Kernel.{Kernel, Cmd, halted, ◌>>◌}
use betriebssysteme.Kprintf.Print.{number, text, kprintf}

-- `struct source_location`
pub record SourceLocation : Type 0 where
  pub file_name : List ℕ
  pub line : ℕ
  pub column : ℕ

-- The fields of `struct type_mismatch_data_v1` that are read.
pub record TypeMismatchData : Type 0 where
  pub location : SourceLocation
  pub log_alignment : ℕ

-- With interrupts off, the processor waits for one for good.
unfoldable pub halt : Cmd (Unit {0})
halt k = halted k

unfoldable pub print_source_location : SourceLocation → Cmd (Unit {0})
print_source_location location = put (
    kprintf (codes "%s:%u:%u")
      (text location.file_name ∷ number location.line ∷ number location.column ∷ []))

-- A handler that `DEF_UBSAN_HANDLER` defines, with the name that it prints.
unfoldable pub ubsan_handler : List ℕ → SourceLocation → Cmd (Unit {0})
unfolding print_source_location halt
ubsan_handler name location =
    put (kprintf (codes "Undefined behavior detected: " ++ name ++ codes " at ") [])
    >> print_source_location location
    >> put (kprintf (codes "\n") [])
    >> halt

-- The names for which the file defines a handler.
unfoldable pub handler_names : List (List ℕ)
handler_names =
    codes "add_overflow"
    ∷ codes "add_overflow_abort"
    ∷ codes "alignment_assumption"
    ∷ codes "builtin_unreachable"
    ∷ codes "alignment_assumption_abort"
    ∷ codes "cfi_check_fail"
    ∷ codes "cfi_bad_type"
    ∷ codes "divrem_overflow"
    ∷ codes "cfi_check_fail_abort"
    ∷ codes "dynamic_type_cache_miss"
    ∷ codes "divrem_overflow_abort"
    ∷ codes "float_cast_overflow"
    ∷ codes "dynamic_type_cache_miss_abort"
    ∷ codes "function_type_mismatch_v1"
    ∷ codes "float_cast_overflow_abort"
    ∷ codes "implicit_conversion"
    ∷ codes "function_type_mismatch_v1_abort"
    ∷ codes "invalid_builtin"
    ∷ codes "implicit_conversion_abort"
    ∷ codes "invalid_objc_cast"
    ∷ codes "invalid_builtin_abort"
    ∷ codes "load_invalid_value"
    ∷ codes "invalid_objc_cast_abort"
    ∷ codes "missing_return"
    ∷ codes "load_invalid_value_abort"
    ∷ codes "mul_overflow_abort"
    ∷ codes "mul_overflow"
    ∷ codes "negate_overflow_abort"
    ∷ codes "negate_overflow"
    ∷ codes "nonnull_arg_abort"
    ∷ codes "nonnull_arg"
    ∷ codes "nonnull_return_v1_abort"
    ∷ codes "nonnull_return_v1"
    ∷ codes "nullability_arg_abort"
    ∷ codes "nullability_arg"
    ∷ codes "nullability_return_v1_abort"
    ∷ codes "nullability_return_v1"
    ∷ codes "out_of_bounds_abort"
    ∷ codes "pointer_overflow_abort"
    ∷ codes "pointer_overflow"
    ∷ codes "shift_out_of_bounds_abort"
    ∷ codes "shift_out_of_bounds"
    ∷ codes "sub_overflow_abort"
    ∷ codes "sub_overflow"
    ∷ codes "type_mismatch_v1_abort"
    ∷ codes "vla_bound_not_positive_abort"
    ∷ codes "vla_bound_not_positive"
    ∷ []

unfoldable pub handle_out_of_bounds : SourceLocation → ℕ → Cmd (Unit {0})
unfolding print_source_location halt
handle_out_of_bounds loc index =
    put (
      kprintf (codes "Undefined behavior detected: out of bounds access index %u at ")
        (number index ∷ []))
    >> print_source_location loc
    >> put (kprintf (codes "\n") [])
    >> halt

-- The first message of `__ubsan_handle_type_mismatch_v1`; `unsigned char` and `int` are both wide
-- enough for the subtraction.
unfoldable pub mismatch_message : ℕ → ℕ → List ℕ
mismatch_message log_alignment ptr =
    if ptr == 0
    then codes "Undefined behavior detected: null pointer access at "
    else if not (log_alignment == 0) && not (bit_and ptr (log_alignment - 1) == 0)
    then codes "Undefined behavior detected: unaligned access at "
    else codes "Undefined behavior detected: type mismatch at "

unfoldable pub handle_type_mismatch_v1 : TypeMismatchData → ℕ → Cmd (Unit {0})
unfolding mismatch_message print_source_location halt
handle_type_mismatch_v1 data_v1 ptr =
    put (kprintf (mismatch_message data_v1.log_alignment ptr) [])
    >> print_source_location data_v1.location
    >> put (kprintf (codes "\n") [])
    >> halt
