-- ===== src/Value/Hashing.antt =====
-- Keys on which `SameAs` and the hash methods agree.
use sobek.Base.{ℕ, ◌≡◌, refl, ap, true, false, List, [], ◌∷◌, arith}
use sobek.Base.Int.{ℤ, int_eq→≡}
use sobek.Value.{
  Value, undefined, null, bool, int, float, string, symbol, big_int, object, StringKind,
  ascii_string, unicode_string, Objects, float_same_as, float_same_as_int, float_eq, kind_eq,
  units_eq, same_as, object_eq, is_nan, Hashes, hash_value,
}

-- The bits of `math.NaN()`.
abbrev pub nan_bits : ℕ
nan_bits = 9221120237041090561

-- A float64 that is the one NaN or the same as no integer, an object that is the same as no other, and
-- every value of another type.
abbrev pub IsKey : Objects → Value → Type 0
IsKey rt (float f) = (is_nan f ≡ true → f ≡ nan_bits) × ((i : ℤ) → float_same_as_int f i ≡ false)
IsKey rt (object o) = (b : ℕ) → rt.equal o b ≡ true → o ≡ b
IsKey rt _ = Unit

kind_eq→≡ : (k l : StringKind) → kind_eq k l ≡ true → k ≡ l
unfolding kind_eq
kind_eq→≡ ascii_string ascii_string e = refl
kind_eq→≡ unicode_string unicode_string e = refl
kind_eq→≡ k l e = absurd (ground (arith, e))

units_eq→≡ : (s t : List ℕ) → units_eq s t ≡ true → s ≡ t
unfolding units_eq
units_eq→≡ [] [] e = refl
units_eq→≡ (a ∷ s) (b ∷ t) e = ground (arith, e, units_eq→≡ s t)
units_eq→≡ s t e = absurd (ground (arith, e))

float_hash :
    (hs : Hashes) (f g : ℕ)
    → (is_nan f ≡ true → f ≡ nan_bits)
    → (is_nan g ≡ true → g ≡ nan_bits)
    → float_same_as f g ≡ true
    → hash_value hs (float f) ≡ hash_value hs (float g)
unfolding float_same_as float_eq hash_value
float_hash hs f g a b e = ground (arith, a, b, e)

-- Keys that are the same have the same hash.
pub hash_value-of_same :
    (rt : Objects) (hs : Hashes) (a b : Value)
    → IsKey rt a
    → IsKey rt b
    → same_as rt a b ≡ true
    → hash_value hs a ≡ hash_value hs b
unfolding same_as hash_value object_eq
hash_value-of_same rt hs undefined undefined p q e = refl
hash_value-of_same rt hs null null p q e = refl
hash_value-of_same rt hs (bool a) (bool b) p q e = ground (arith, e)
hash_value-of_same rt hs (int a) (int b) p q e = ap (λ i. hash_value hs (int i)) (int_eq→≡ a b e)
hash_value-of_same rt hs (float a) (float b) p q e = float_hash hs a b p.0 q.0 e
hash_value-of_same rt hs (float a) (int b) p q e = absurd (ground (arith, e, p.1 b))
hash_value-of_same rt hs (string k s) (string l t) p q e =
    ground (arith, e, kind_eq→≡ k l, units_eq→≡ s t)
hash_value-of_same rt hs (symbol a) (symbol b) p q e = ground (arith, e)
hash_value-of_same rt hs (big_int a) (big_int b) p q e = ap (λ i. hs.big_int_sum i) (int_eq→≡ a b e)
hash_value-of_same rt hs (object a) (object b) p q e = ground (arith, e, p b)
hash_value-of_same rt hs a b p q e = absurd (ground (arith, e))
