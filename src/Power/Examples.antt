-- ===== src/Power/Examples.antt =====
-- Powers of small numbers, and of -3.
use sobek.Base.{none, some, ◌≡◌, ◌-◌, refl, arith, ℕ}
use sobek.Base.Int.{pos, negsuc}
use sobek.Power.{words, ipow, power}
use sobek.Power.Exact.{Answer, ipow-exact}

abbrev minus_three : ℕ
minus_three = words - 3

cube : ipow minus_three (pos 3) ≡ some (words - 27)
unfolding ipow power
cube = refl

too_large : ipow 3037000500 (pos 2) ≡ some 0
unfolding ipow power
too_large = refl

negative_exponent : ipow 2 (negsuc 0) ≡ none
unfolding ipow
negative_exponent = refl

ipow-exact_example :
    ((r : ℕ) × (ipow minus_three (pos 3) ≡ some r) × Answer minus_three 3 r)
    × (ipow minus_three (negsuc 3) ≡ none)
ipow-exact_example = ipow-exact minus_three 3 (omega arith)
