-- ===== src/Value/Sameness.antt =====
-- `SameAs` of values is reflexive.
use sobek.Base.{ℕ, ◌≡◌, refl, true, List, [], ◌∷◌, arith}
use sobek.Base.Int.{int_eq_refl}
use sobek.Value.{
  Value, undefined, null, bool, int, float, string, symbol, big_int, object, StringKind,
  ascii_string, unicode_string, Objects, float_same_as, kind_eq, units_eq, same_as,
}

float_same_as_refl : (f : ℕ) → float_same_as f f ≡ true
unfolding float_same_as
float_same_as_refl f = ground arith

kind_eq_refl : (k : StringKind) → kind_eq k k ≡ true
unfolding kind_eq
kind_eq_refl ascii_string = refl
kind_eq_refl unicode_string = refl

units_eq_refl : (s : List ℕ) → units_eq s s ≡ true
unfolding units_eq
units_eq_refl [] = refl
units_eq_refl (a ∷ s) = ground (arith, units_eq_refl s)

-- Every value is the same as itself, also NaN and the zeros.
pub same_as_refl : (rt : Objects) (v : Value) → same_as rt v v ≡ true
unfolding same_as
same_as_refl rt undefined = refl
same_as_refl rt null = refl
same_as_refl rt (bool b) = ground arith
same_as_refl rt (int i) = int_eq_refl i
same_as_refl rt (float f) = float_same_as_refl f
same_as_refl rt (string k s) = ground (arith, kind_eq_refl k, units_eq_refl s)
same_as_refl rt (symbol a) = ground arith
same_as_refl rt (big_int i) = int_eq_refl i
same_as_refl rt (object a) = ground arith
