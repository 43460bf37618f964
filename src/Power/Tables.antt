-- ===== src/Power/Tables.antt =====
-- The tables of `ipow`: the case of the switch is high enough, and the base is bounded just right.
use sobek.Base.{
  ℕ, zero, suc, ◌-◌, ◌^◌, ◌≤◌, ◌<◌, Bool, true, false, ◌&&◌, ◌||◌, ◌≡◌, ◌≢◌, refl, arith, inl, inr,
  ◌==◌, ==→≡, ==→≢, leb, ltb, if◌then◌else◌, Bool-cases,
}
use native.Mathlib.Nat.{mod-eq_of_lt}
use sobek.Power.{words, sign_bit, overflows, highest_bit_set, entry, negate, exceeds}

-- The absolute value of a word in two's complement.
abbrev pub magnitude : ℕ → ℕ
magnitude w = if ltb w sign_bit then w else words - w

abbrev all_below : (ℕ → Bool) → ℕ → Bool
all_below f zero = true
all_below f (suc n) = f n && all_below f n

all_below-at : (f : ℕ → Bool) (n i : ℕ) → all_below f n ≡ true → i < n → f i ≡ true
all_below-at f zero i a lt = absurd (omega arith)
all_below-at f (suc n) i a lt = elim (Bool-cases (i == n)) [
  | inl y ↦ let same = ==→≡ i n y in rw same (ground (arith, a))
  | inr x ↦
      all_below-at f n i (ground (arith, a)) (let other = ==→≢ i n x in omega (arith, lt, other))
]

-- The case of the switch is high enough, and the greatest base's power is below 2 ^ 63.
abbrev fits : ℕ → Bool
fits e = ltb e (2 ^ entry highest_bit_set e) && ltb (entry overflows e ^ e) sign_bit

tables_fit : all_below fits 63 ≡ true
tables_fit = refl

-- A base one greater has a power that is not below 2 ^ 63.
abbrev tight : ℕ → Bool
tight e = e == 0 || leb sign_bit (suc (entry overflows e) ^ e)

tables_tight : all_below tight 63 ≡ true
tables_tight = refl

module _ (exp : ℕ) (lt : exp < 63) where
  pub case_enough : exp < 2 ^ entry highest_bit_set exp
  case_enough = ground (arith, all_below-at fits 63 exp tables_fit lt)

  pub limit_fits : entry overflows exp ^ exp < sign_bit
  limit_fits = ground (arith, all_below-at fits 63 exp tables_fit lt)

  pub limit_tight : 0 < exp → sign_bit ≤ suc (entry overflows exp) ^ exp
  limit_tight z = ground (arith, all_below-at tight 63 exp tables_tight lt)

pub beyond :
    (base limit : ℕ)
    → base < words
    → (exceeds base limit || exceeds (negate base) limit) ≡ true
    → suc limit ≤ magnitude base
beyond base limit w e = elim (Bool-cases (ltb base sign_bit)) [
  | inl y ↦ elim (Bool-cases (base == 0)) [
    | inl z ↦
        let same = ==→≡ base 0 z in let at_zero = rw same at e in absurd (ground (arith, at_zero))
    | inr n ↦
        let some_base = ==→≢ base 0 n in
        let m : negate base ≡ words - base = mod-eq_of_lt (omega (arith, w, some_base)) in
        rw y (ground (arith, e, m, y))
  ]
  | inr x ↦
      let high : sign_bit ≤ base = ground (arith, x) in
      let m : negate base ≡ words - base = mod-eq_of_lt (omega (arith, w, high)) in
      rw x (ground (arith, e, m, high, w))
]

pub within :
    (base limit : ℕ)
    → base < words
    → (exceeds base limit || exceeds (negate base) limit) ≡ false
    → base ≢ sign_bit
    → magnitude base ≤ limit
within base limit w e n = elim (Bool-cases (ltb base sign_bit)) [
  | inl y ↦ rw y (ground (arith, e, y))
  | inr x ↦
      let above : sign_bit < base = ground (arith, x, n) in
      let m : negate base ≡ words - base = mod-eq_of_lt (omega (arith, w, above)) in
      rw x (ground (arith, e, m, above, w))
]
