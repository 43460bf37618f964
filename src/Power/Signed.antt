-- ===== src/Power/Signed.antt =====
-- Powers of words as signed numbers.
use sobek.Base.{
  ℕ, zero, suc, ◌-◌, ◌*◌, ◌/◌, ◌%◌, ◌^◌, ◌≤◌, ◌<◌, Bool, true, false, ◌&&◌, ◌≡◌, refl, arith, inl,
  inr, leb, ltb, if◌then◌else◌, Bool-cases, ◌∙◌, sym, ap,
}
use native.Mathlib.Nat.{
  pow-suc, one-le-pow, pow-zero, mul_assoc, one-mul, mul-mod_left, mod-eq_of_lt,
}
use sobek.Power.{words, sign_bit, odd}
use sobek.Power.Modular.{halve-pow, pow-mod, mod-mul_left}
use sobek.Power.Tables.{magnitude}

pub one-pow : (k : ℕ) → 1 ^ k ≡ 1
one-pow zero = pow-zero 1
one-pow (suc k) = pow-suc 1 k ∙ (rw (one-pow k) refl)

-- The least word is its own square root of 0.
pub least-pow : (k : ℕ) → sign_bit ^ suc (suc k) % words ≡ 0
least-pow k =
    let e : sign_bit ^ suc (suc k) ≡ (sign_bit ^ k * 4611686018427387904) * words =
      pow-suc sign_bit (suc k)
      ∙ (rw (pow-suc sign_bit k) (mul_assoc (sign_bit ^ k) sign_bit sign_bit))
      ∙ sym (mul_assoc (sign_bit ^ k) 4611686018427387904 words) in
    rw e (mul-mod_left (sign_bit ^ k * 4611686018427387904) words)

minus_one-pow : (k : ℕ) → (words - 1) ^ k % words ≡ (if odd k then words - 1 else 1)
minus_one-pow k =
    let square : ((words - 1) * (words - 1)) ^ (k / 2) % words ≡ 1 =
      sym (pow-mod ((words - 1) * (words - 1)) (k / 2) words) ∙ (rw (one-pow (k / 2)) refl) in
    let c = if odd k then words - 1 else 1 in
    rw (halve-pow (words - 1) k) (
      sym (mod-mul_left (((words - 1) * (words - 1)) ^ (k / 2)) c words)
      ∙ (rw square (elim (Bool-cases (odd k)) [ inl y ↦ rw y refl | inr n ↦ rw n refl ])))

mul-pow : (a b k : ℕ) → (a * b) ^ k ≡ a ^ k * b ^ k
mul-pow a b zero = rw (pow-zero (a * b), pow-zero a, pow-zero b) refl
mul-pow a b (suc k) = rw (pow-suc (a * b) k, pow-suc a k, pow-suc b k, mul-pow a b k) (grind arith)

-- The power of a negative word is that of its absolute value, with a sign for an odd exponent.
negative-pow :
    (base exp : ℕ)
    → base < words
    → sign_bit ≤ base
    → base ^ exp % words ≡ (if odd exp then words - 1 else 1) * (words - base) ^ exp % words
negative-pow base exp w le =
    let m = words - base in
    let e : base ≡ (words - 1) * m % words = omega (arith, w, le) in
    ap (λ b. b ^ exp % words) e
    ∙ pow-mod ((words - 1) * m) exp words
    ∙ ap (λ k. k % words) (mul-pow (words - 1) m exp)
    ∙ sym (mod-mul_left ((words - 1) ^ exp) (m ^ exp) words)
    ∙ (rw (minus_one-pow exp) refl)

-- A negative power: of a negative word, for an odd exponent.
abbrev pub is_negative : (base exp : ℕ) → Bool
is_negative base exp = leb sign_bit base && odd exp

-- `r` is the power of `base` as a signed number: its absolute value is the power of the one of
-- `base`, it is negative for a negative base and an odd exponent, and it is in range.
unfoldable pub IsPower : (base exp r : ℕ) → Type 0
IsPower base exp r =
    let size = magnitude base ^ exp in
    (r ≡ (if is_negative base exp then words - size else size))
    × ((if is_negative base exp then leb size sign_bit else ltb size sign_bit) ≡ true)

-- The power of a negative word as the powers modulo 2 ^ 64 have it.
pub negative :
    (base exp : ℕ)
    → base < words
    → sign_bit ≤ base
    → magnitude base ^ exp ≤ sign_bit
    → (odd exp ≡ false → magnitude base ^ exp < sign_bit)
    → IsPower base exp (base ^ exp % words)
unfolding IsPower
negative base exp w le b c =
    let m : magnitude base ≡ words - base = ground (arith, le) in
    let below : (words - base) ^ exp ≤ sign_bit = rw (sym m) b in
    let above = one-le-pow exp (words - base) (omega (arith, w)) in
    let n : leb sign_bit base ≡ true = ground (arith, le) in
    rw (m, n)
      (elim (Bool-cases (odd exp)) [
        | inl o ↦ rw o (
          negative-pow base exp w le ∙ (rw o (omega (arith, below, above))),
          ground (arith, below),
        )
        | inr o ↦
            let small : (words - base) ^ exp < sign_bit = rw (sym m) (c o) in
            rw o (
              negative-pow base exp w le
                  ∙ (rw (o, one-mul ((words - base) ^ exp)) (mod-eq_of_lt (omega (arith, small)))),
              ground (arith, small),
            )
      ])

-- The power of a word that is not negative.
pub nonnegative :
    (base exp : ℕ) → base < sign_bit → base ^ exp < sign_bit → IsPower base exp (base ^ exp % words)
unfolding IsPower
nonnegative base exp lt b =
    let m : magnitude base ≡ base = ground (arith, lt) in
    let n : leb sign_bit base ≡ false = ground (arith, lt) in
    rw (m, n) (mod-eq_of_lt (omega (arith, b)), ground (arith, b))
