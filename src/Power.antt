-- ===== src/Power.antt =====
-- `ipow` (ipow.go): integer powers by squaring, on 64-bit words in two's complement. The result 0
-- tells the caller that the power does not fit; a negative exponent is out of range of the table, a
-- panic, here `none`.
pub mod Modular
pub mod Tables
pub mod Signed
pub mod Exact
mod Examples
use sobek.Base.{
  ℕ, zero, suc, ◌+◌, ◌-◌, ◌*◌, ◌/◌, ◌%◌, Bool, true, false, ◌&&◌, ◌||◌, List, [], ◌∷◌, Option, none,
  some, get_elem?, leb, ltb, ◌==◌, if◌then◌else◌,
}
use sobek.Base.Int.{ℤ, pos, negsuc}

-- 2 ^ 64 and 2 ^ 63
abbrev pub words : ℕ
words = 18446744073709551616

abbrev pub sign_bit : ℕ
sign_bit = 9223372036854775808

abbrev pub overflows : List ℕ
overflows =
    9223372036854775807 ∷ 9223372036854775807 ∷ 3037000499 ∷ 2097151 ∷ 55108 ∷ 6208 ∷ 1448 ∷ 511
    ∷ 234 ∷ 127 ∷ 78 ∷ 52 ∷ 38 ∷ 28 ∷ 22 ∷ 18 ∷ 15 ∷ 13 ∷ 11 ∷ 9 ∷ 8 ∷ 7 ∷ 7 ∷ 6 ∷ 6 ∷ 5 ∷ 5 ∷ 5 ∷ 4
    ∷ 4 ∷ 4 ∷ 4 ∷ 3 ∷ 3 ∷ 3 ∷ 3 ∷ 3 ∷ 3 ∷ 3 ∷ 3 ∷ 2 ∷ 2 ∷ 2 ∷ 2 ∷ 2 ∷ 2 ∷ 2 ∷ 2 ∷ 2 ∷ 2 ∷ 2 ∷ 2 ∷ 2
    ∷ 2 ∷ 2 ∷ 2 ∷ 2 ∷ 2 ∷ 2 ∷ 2 ∷ 2 ∷ 2 ∷ 2 ∷ 2 ∷ []

abbrev pub highest_bit_set : List ℕ
highest_bit_set =
    0 ∷ 1 ∷ 2 ∷ 2 ∷ 3 ∷ 3 ∷ 3 ∷ 3 ∷ 4 ∷ 4 ∷ 4 ∷ 4 ∷ 4 ∷ 4 ∷ 4 ∷ 4 ∷ 5 ∷ 5 ∷ 5 ∷ 5 ∷ 5 ∷ 5 ∷ 5 ∷ 5
    ∷ 5 ∷ 5 ∷ 5 ∷ 5 ∷ 5 ∷ 5 ∷ 5 ∷ 5 ∷ 6 ∷ 6 ∷ 6 ∷ 6 ∷ 6 ∷ 6 ∷ 6 ∷ 6 ∷ 6 ∷ 6 ∷ 6 ∷ 6 ∷ 6 ∷ 6 ∷ 6 ∷ 6
    ∷ 6 ∷ 6 ∷ 6 ∷ 6 ∷ 6 ∷ 6 ∷ 6 ∷ 6 ∷ 6 ∷ 6 ∷ 6 ∷ 6 ∷ 6 ∷ 6 ∷ 6 ∷ []

-- The tables are only read below 63, where they have an entry.
abbrev pub entry : List ℕ → ℕ → ℕ
entry table i = elim (get_elem? table i) [ none ↦ 0 | some v ↦ v ]

abbrev pub multiply : ℕ → ℕ → ℕ
multiply a b = a * b % words

abbrev pub negate : ℕ → ℕ
negate a = (words - a) % words

-- `a > b` as signed numbers, for a `b` that is not negative.
abbrev pub exceeds : ℕ → ℕ → Bool
exceeds a b = ltb a sign_bit && ltb b a

abbrev pub odd : ℕ → Bool
odd n = n % 2 == 1

-- The cases of the switch, each falling through to the next; the last one does not square.
unfoldable pub ladder : ℕ → (exp base result : ℕ) → ℕ
ladder zero exp base result = result
ladder (suc zero) exp base result = if odd exp then multiply result base else result
ladder (suc (suc n)) exp base result =
    ladder (suc n) (exp / 2) (multiply base base) (if odd exp then multiply result base else result)

unfoldable pub power : (base exp : ℕ) → ℕ
unfolding ladder
power base exp =
    if leb 63 exp
    then (if base == 1
        then 1
        else if base == words - 1
        then (if odd exp then words - 1 else 1)
        else 0)
    else if exceeds base (entry overflows exp) || exceeds (negate base) (entry overflows exp)
    then 0
    else ladder (entry highest_bit_set exp) exp base 1

-- The exponent is an `int64` too: `overflows[exp]` panics for a negative one.
unfoldable pub ipow : (base : ℕ) (exp : ℤ) → Option ℕ
ipow base (pos exp) = some (power base exp)
ipow base (negsuc n) = none
