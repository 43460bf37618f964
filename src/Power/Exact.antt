-- ===== src/Power/Exact.antt =====
-- What `ipow` answers: the power, or 0 where it does not fit.
use sobek.Base.{
  ℕ, zero, suc, ◌-◌, ◌%◌, ◌^◌, ◌≤◌, ◌<◌, true, false, ◌||◌, ◌≡◌, ◌≢◌, refl, arith, inl, inr, ◌==◌,
  ==→≡, ==→≢, leb, ltb, Bool-cases, ◌∙◌, sym, some, ◌⊎◌, none,
}
use mathlib.Core.Path.{subst}
use native.Mathlib.Nat.{pow-suc, pow-le-pow_left, pow-le-pow_right, mul-zero, one-mul}
use sobek.Power.{
  words, sign_bit, overflows, highest_bit_set, entry, negate, exceeds, odd, ladder, power, ipow,
}
use sobek.Base.Int.{pos, negsuc}
use sobek.Power.Modular.{ladder-pow}
use sobek.Power.Tables.{magnitude, case_enough, limit_fits, limit_tight, within, beyond}
use sobek.Power.Signed.{IsPower, one-pow, least-pow, negative, nonnegative}

-- `r` is the power, or it is 0 and the power does not fit.
abbrev pub Answer : (base exp r : ℕ) → Type 0
Answer base exp r = IsPower base exp r ⊎ ((r ≡ 0) × (sign_bit ≤ magnitude base ^ exp))

large_power : (m exp : ℕ) → 2 ≤ m → 63 ≤ exp → sign_bit ≤ m ^ exp
large_power m exp two le =
    let a : 2 ^ exp ≤ m ^ exp = pow-le-pow_left two exp in
    let b : 2 ^ 63 ≤ 2 ^ exp = pow-le-pow_right (omega arith) le in omega (arith, a, b)

zero-pow : (exp : ℕ) → 0 < exp → 0 ^ exp ≡ 0
zero-pow zero lt = absurd (omega arith)
zero-pow (suc k) lt = pow-suc 0 k ∙ mul-zero (0 ^ k)

magnitude_large :
    (base : ℕ) → base < words → base ≢ 0 → base ≢ 1 → base ≢ words - 1 → 2 ≤ magnitude base
magnitude_large base w a b c = ground (arith, w, a, b, c)

-- An exponent of 63 or more, where only 0, 1 and -1 have a power that fits.
large : (base exp : ℕ) → base < words → 63 ≤ exp → Answer base exp (power base exp)
unfolding power IsPower
large base exp w le = elim (Bool-cases (base == 1)) [
  | inl y ↦ let same = ==→≡ base 1 y in inl (rw same (rw (one-pow exp) (ground (arith, le), refl)))
  | inr n ↦ elim (Bool-cases (base == words - 1)) [
    | inl y ↦
        let same = ==→≡ base (words - 1) y in
        inl (
          rw same (
            rw (one-pow exp) (elim (Bool-cases (odd exp)) [
              | inl o ↦ rw o (ground (arith, le, o), refl)
              | inr o ↦ rw o (ground (arith, le, o), refl)
            ])))
    | inr k ↦
        let r : power base exp ≡ 0 = ground (arith, le, n, k) in
        elim (Bool-cases (base == 0)) [
          | inl z ↦
              let same = ==→≡ base 0 z in
              inl (rw same (rw (zero-pow exp (omega (arith, le))) (ground (arith, le), refl)))
          | inr z ↦
              let m =
                magnitude_large base w (==→≢ base 0 z) (==→≢ base 1 n) (==→≢ base (words - 1) k) in
              inr (r, large_power (magnitude base) exp m le)
        ]
  ]
]

least : (exp : ℕ) → Answer sign_bit exp (sign_bit ^ exp % words)
unfolding IsPower
least zero = inl (refl, refl)
least (suc zero) = inl (refl, refl)
least (suc (suc k)) =
    let first : 1 ≤ suc (suc k) = omega arith in
    let more : sign_bit ^ 1 ≤ sign_bit ^ suc (suc k) = pow-le-pow_right (omega arith) first in
    inr (least-pow k, more)

module _ (base exp : ℕ) (w : base < words) (lt : exp < 63) where
  -- An exponent below 63, where the table bounds the base.
  in_table :
      (exceeds base (entry overflows exp) || exceeds (negate base) (entry overflows exp)) ≡ false
      → base ≢ sign_bit
      → IsPower base exp (base ^ exp % words)
  in_table n k =
      let b : magnitude base ^ exp < sign_bit =
        let least_power = pow-le-pow_left (within base (entry overflows exp) w n k) exp in
        omega (arith, least_power, limit_fits exp lt) in
      elim (Bool-cases (ltb base sign_bit)) [
        | inl y ↦
            let m : magnitude base ≡ base = ground (arith, y) in
            nonnegative base exp (ground (arith, y)) (rw (sym m) b)
        | inr x ↦ negative base exp w (ground (arith, x)) (omega (arith, b)) (λ o. b)
      ]

  -- A base that the table turns away.
  past_table :
      (exceeds base (entry overflows exp) || exceeds (negate base) (entry overflows exp)) ≡ true
      → sign_bit ≤ magnitude base ^ exp
  past_table y =
      let positive : 0 < exp = elim (Bool-cases (exp == 0)) [
        | inl z ↦
            let same = ==→≡ exp 0 z in
            let at_zero = rw same at y in absurd (ground (arith, at_zero))
        | inr z ↦ let other = ==→≢ exp 0 z in omega (arith, other)
      ] in
      let more = pow-le-pow_left (beyond base (entry overflows exp) w y) exp in
      omega (arith, more, limit_tight exp lt positive)

  small : Answer base exp (power base exp)
  unfolding power
  small =
      let limit = entry overflows exp in
      elim (Bool-cases (exceeds base limit || exceeds (negate base) limit)) [
        | inl y ↦ inr (ground (arith, lt, y), past_table y)
        | inr n ↦
            let climbed : ladder (entry highest_bit_set exp) exp base 1 ≡ base ^ exp % words =
              ladder-pow (entry highest_bit_set exp) exp base 1 (case_enough exp lt) (omega arith)
              ∙ (rw (one-mul (base ^ exp)) refl) in
            let e : power base exp ≡ base ^ exp % words = ground (arith, lt, n, climbed) in
            subst (Answer base exp) (sym e) (elim (Bool-cases (base == sign_bit)) [
              | inl y ↦ let same = ==→≡ base sign_bit y in rw same (least exp)
              | inr k ↦ inl (in_table n (==→≢ base sign_bit k))
            ])
      ]

-- Of a word as base and an exponent that is not negative, `ipow` has a result, and it is the power of
-- `base` as a signed number, as a word in two's complement, or else it is 0 and the absolute value
-- of the power is 2 ^ 63 or more. A negative exponent has no result.
pub ipow-exact :
    (base exp : ℕ)
    → base < words
    → ((r : ℕ) × (ipow base (pos exp) ≡ some r) × Answer base exp r)
      × (ipow base (negsuc exp) ≡ none)
unfolding ipow
ipow-exact base exp w = (
  (
    power base exp,
    refl,
    elim (Bool-cases (leb 63 exp)) [
      | inl y ↦ large base exp w (ground (arith, y))
      | inr k ↦ small base exp w (ground (arith, k))
    ],
  ),
  refl,
)
