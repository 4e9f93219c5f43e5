-- ===== src/Common/Text.antt =====
-- Go strings: sequences of bytes. A literal of the source is written through its code points.
use Prim.Native.Nat.{ℕ}
use Prim.Native.Char.{code}
use Prim.Native.String.{String}
use mathlib.Core.Path.{◌≡◌, refl}
use mathlib.Core.Logic.{◌↔◌}
use mathlib.Core.Bool.{Bool, true, false, ◌&&◌}
use mathlib.Core.List.{List, [], ◌∷◌}
use native.Mathlib.Omega.{arith}
use postgres_sqlguard.Common.Tests.{◌==◌}

abbrev pub GoString : Type 0
GoString = List ℕ

-- The bytes of an ASCII literal.
unfoldable pub ascii : String → GoString
ascii String.[] = []
ascii (String.◌∷◌ c s) = code c ∷ ascii s

-- `a == b` on Go strings.
unfoldable pub str_eq : GoString → GoString → Bool
str_eq [] [] = true
str_eq (a ∷ s) (b ∷ t) = a == b && str_eq s t
str_eq _ _ = false

pub str_eq_refl : (s : GoString) → str_eq s s ≡ true
unfolding str_eq
str_eq_refl [] = refl
str_eq_refl (a ∷ s) = ground (arith, str_eq_refl s)

eq_of_str_eq : (s t : GoString) → str_eq s t ≡ true → s ≡ t
unfolding str_eq
eq_of_str_eq [] [] h = refl
eq_of_str_eq [] (b ∷ t) h = cc
eq_of_str_eq (a ∷ s) [] h = cc
eq_of_str_eq (a ∷ s) (b ∷ t) h = ground (arith, eq_of_str_eq s t)

pub str_eq_iff : (s t : GoString) → (str_eq s t ≡ true) ↔ (s ≡ t)
str_eq_iff s t =
    (eq_of_str_eq s t, λ e. mathlib.Core.Path.subst (λ u. str_eq s u ≡ true) e (str_eq_refl s))
