-- ===== src/Power/Modular.antt =====
-- Powers modulo the size of a word, and the steps of the squaring.
use sobek.Base.{
  ℕ, zero, suc, ◌+◌, ◌*◌, ◌/◌, ◌%◌, ◌^◌, ◌<◌, ◌≡◌, refl, ap, arith, inl, inr, ==→≡, ==→≢,
  if◌then◌else◌, Bool-cases, ◌∙◌, sym,
}
use native.Mathlib.Nat.{
  pow-suc, pow-zero, add-mul-mod_self_left, div-add-mod, mod-lt, mod-eq_of_lt, mul_comm, mul_assoc,
  mul-one,
}
use sobek.Power.{words, multiply, odd, ladder}

-- A factor may be reduced first.
pub mod-mul_left : (a b m : ℕ) → (a % m * b) % m ≡ (a * b) % m
mod-mul_left a b m =
    let e : a * b ≡ a % m * b + m * (a / m * b) = grind (arith, div-add-mod a m) in
    sym (rw e (add-mul-mod_self_left (a % m * b) m (a / m * b)))

pub mod-mul_right : (a b m : ℕ) → (a * (b % m)) % m ≡ (a * b) % m
mod-mul_right a b m = rw (mul_comm a (b % m), mul_comm a b) (mod-mul_left b a m)

pub pow-mod : (a k m : ℕ) → (a % m) ^ k % m ≡ a ^ k % m
pow-mod a zero m = rw (pow-zero (a % m), pow-zero a) refl
pow-mod a (suc k) m =
    rw (pow-suc (a % m) k, pow-suc a k)
      (sym (mod-mul_left ((a % m) ^ k) (a % m) m)
        ∙ (rw (pow-mod a k m) (mod-mul_left (a ^ k) (a % m) m))
        ∙ mod-mul_right (a ^ k) a m)

pub square-pow : (b k : ℕ) → (b * b) ^ k ≡ b ^ (k + k)
square-pow b zero = rw (pow-zero (b * b), pow-zero b) refl
square-pow b (suc k) =
    let twice : suc k + suc k ≡ suc (suc (k + k)) = omega arith in
    rw (pow-suc (b * b) k, twice, pow-suc b (suc (k + k)), pow-suc b (k + k), square-pow b k)
      (sym (mul_assoc (b ^ (k + k)) b b))

-- A square takes the place of two factors, and an odd exponent has one more.
pub halve-pow : (b n : ℕ) → b ^ n ≡ (b * b) ^ (n / 2) * (if odd n then b else 1)
halve-pow b n = elim (Bool-cases (odd n)) [
  | inl y ↦
      let e : n ≡ suc (n / 2 + n / 2) = let one = ==→≡ (n % 2) 1 y in omega (arith, one) in
      rw y (ap (λ k. b ^ k) e ∙ pow-suc b (n / 2 + n / 2) ∙ (rw (square-pow b (n / 2)) refl))
  | inr x ↦
      let e : n ≡ n / 2 + n / 2 = let other = ==→≢ (n % 2) 1 x in omega (arith, other) in
      rw x (ap (λ k. b ^ k) e ∙ (rw (square-pow b (n / 2)) (sym (mul-one (b ^ (n / 2 + n / 2))))))
]

reduce-pow : (x b k m : ℕ) → (x * (b % m) ^ k) % m ≡ (x * b ^ k) % m
reduce-pow x b k m =
    sym (mod-mul_right x ((b % m) ^ k) m) ∙ (rw (pow-mod b k m) (mod-mul_right x (b ^ k) m))

-- The product in hand after a step.
abbrev pub multiplied : (exp base result : ℕ) → ℕ
multiplied exp base result = if odd exp then multiply result base else result

multiplied-lt : (exp base result : ℕ) → result < words → multiplied exp base result < words
multiplied-lt exp base result r = elim (Bool-cases (odd exp)) [
  | inl y ↦ rw y (mod-lt (result * base) (omega arith))
  | inr n ↦ rw n r
]

multiplied-pow :
    (exp base result x : ℕ)
    → (multiplied exp base result * x) % words
      ≡ (result * (x * (if odd exp then base else 1))) % words
multiplied-pow exp base result x = elim (Bool-cases (odd exp)) [
  | inl y ↦
      let e : result * base * x ≡ result * (x * base) = grind arith in
      rw y (mod-mul_left (result * base) x words ∙ ap (λ k. k % words) e)
  | inr n ↦ rw n (rw (mul-one x) refl)
]

-- What the switch comes to, from a case that is high enough.
pub ladder-pow :
    (n exp base result : ℕ)
    → exp < 2 ^ n
    → result < words
    → ladder n exp base result ≡ (result * base ^ exp) % words
unfolding ladder
ladder-pow zero exp base result lt r =
    let e : exp ≡ 0 = omega (arith, lt, pow-zero 2) in
    rw (e, pow-zero base, mul-one result) (sym (mod-eq_of_lt r))
ladder-pow (suc zero) exp base result lt r =
    let e : exp / 2 ≡ 0 = omega (arith, lt, pow-suc 2 0, pow-zero 2) in
    let m = multiplied exp base result in
    let one : m * 1 ≡ m = mul-one m in
    sym (rw one (mod-eq_of_lt (multiplied-lt exp base result r)))
    ∙ multiplied-pow exp base result 1
    ∙ (rw (halve-pow base exp, e, pow-zero (base * base)) refl)
ladder-pow (suc (suc n)) exp base result lt r =
    let ih =
      ladder-pow (suc n) (exp / 2) (multiply base base) (multiplied exp base result)
        (omega (arith, lt, pow-suc 2 (suc n))) (multiplied-lt exp base result r) in
    ih
    ∙ reduce-pow (multiplied exp base result) (base * base) (exp / 2) words
    ∙ multiplied-pow exp base result ((base * base) ^ (exp / 2))
    ∙ (rw (halve-pow base exp) refl)
