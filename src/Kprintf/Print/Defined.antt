-- ===== src/Kprintf/Print/Defined.antt =====
-- lib/kprintf.c: which calls of `kprintf` have defined behaviour, and that each comes to an end.
use betriebssysteme.Common.{
  ◌≡◌, inl, inr, refl, Bool, true, false, Option, none, some, List, ℕ, ◌++◌, Bool-cases, ◌≢◌, arith,
}
use betriebssysteme.Kprintf.Format.{check_for_unknown_format}
use betriebssysteme.Kprintf.Print.{
  Arg, Output, printed, out_of_fuel, before, kprintf, unknown_conversion,
}
use betriebssysteme.Kprintf.Print.Renders.{kprintf_renders}
use betriebssysteme.Kprintf.Print.Spec.{render, shows, output, plain}

abbrev pub Prints : Output → Type 0
Prints o = (cs : List ℕ) × (o ≡ printed cs)

pub before-Prints : (cs : List ℕ) (o : Output) → Prints o → Prints (before cs o)
before-Prints cs o (ds, done) = rw done (cs ++ ds, refl)

abbrev is_some : Option (List ℕ) → Bool
is_some none = false
is_some (some cs) = true

-- Every directive of the format finds an argument of its type, and no number's field is wider than 16.
unfoldable pub fits : List ℕ → List Arg → Bool
unfolding render shows
fits format args = is_some (render format plain args)

output-Prints : (o : Option (List ℕ)) → is_some o ≡ true → Prints (output o)
output-Prints none e = cc
output-Prints (some cs) e = (cs, refl)

-- A call whose arguments fit its format has defined behaviour: it prints some characters.
pub kprintf-Prints :
    (format : List ℕ) (args : List Arg) → fits format args ≡ true → Prints (kprintf format args)
unfolding fits
kprintf-Prints format args e =
    rw (kprintf_renders format args) (elim (Bool-cases (check_for_unknown_format format)) [
      | inl bad ↦ rw bad (unknown_conversion, refl)
      | inr good ↦ rw good (output-Prints (render format plain args) e)
    ])

output-ne-out_of_fuel : (o : Option (List ℕ)) → output o ≢ out_of_fuel
output-ne-out_of_fuel none = ground arith
output-ne-out_of_fuel (some cs) = ground arith

-- `kprintf` comes to an end for every format and all arguments.
kprintf_ends : (format : List ℕ) (args : List Arg) → kprintf format args ≢ out_of_fuel
kprintf_ends format args =
    rw (kprintf_renders format args) (elim (Bool-cases (check_for_unknown_format format)) [
      | inl bad ↦ rw bad (output-ne-out_of_fuel (some unknown_conversion))
      | inr good ↦ rw good (output-ne-out_of_fuel (render format plain args))
    ])
