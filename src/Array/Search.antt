-- ===== src/Array/Search.antt =====
-- `sort.Search` of Go's library: binary search for the least index at which a test holds.
use native.Mathlib.Decide.{dec_lt}
use sobek.Base.{
  ℕ, zero, suc, ◌+◌, ◌/◌, ◌≤◌, ◌<◌, Bool, true, false, ◌≡◌, arith, ltb, if◌then◌else◌, Bool-cases,
  inr, ltb→ge, inl, ltb→lt,
}

-- The loop keeps `f (i - 1) == false` and `f j == true`; the fuel bounds `j - i`.
pub search_loop : ℕ → (ℕ → Bool) → ℕ → ℕ → ℕ
search_loop zero f i j = i
search_loop (suc fuel) f i j =
    let h = (i + j) / 2 in
    let right = search_loop fuel f (h + 1) j in
    let left = search_loop fuel f i h in if ltb i j then if f h then left else right else i

unfoldable pub search : ℕ → (ℕ → Bool) → ℕ
unfolding search_loop
search n f = search_loop n f 0 n

-- Below `n` the test holds from some index on.
abbrev pub Monotone : ℕ → (ℕ → Bool) → Type 0
Monotone n f = (a b : ℕ) → a ≤ b → b < n → f a ≡ true → f b ≡ true

-- `r` is the least index in `[i, j)` at which the test holds, or `j`.
pub record IsLeast (f : ℕ → Bool) (i j r : ℕ) : Type 0 where
  pub above : i ≤ r
  pub below : r ≤ j
  pub fails : (k : ℕ) → i ≤ k → k < r → f k ≡ false
  pub holds : r < j → f r ≡ true

reaches : (f : ℕ → Bool) (r h : ℕ) → r ≤ h → (r < h → f r ≡ true) → f h ≡ true → f r ≡ true
reaches f r h le below at = elim (dec_lt r h) [
  | yes p ↦ below p
  | no p ↦ let e : r ≡ h = omega arith in rw e at
]

fails_below :
    (n : ℕ) (f : ℕ → Bool) (k h : ℕ) → Monotone n f → k ≤ h → h < n → f h ≡ false → f k ≡ false
fails_below n f k h mono le lt e = elim (Bool-cases (f k)) [
  | inl t ↦ let u = mono k h le lt t in cc
  | inr n ↦ n
]

disagree {ℓ} : {A : Type ℓ} (f : ℕ → Bool) (k : ℕ) → f k ≡ true → f k ≡ false → A
disagree f k t e = absurd (cc)

search_loop-IsLeast :
    (n : ℕ) (f : ℕ → Bool) (fuel i j : ℕ)
    → Monotone n f
    → j ≤ n
    → i ≤ j
    → j ≤ i + fuel
    → IsLeast f i j (search_loop fuel f i j)
unfolding search_loop
search_loop-IsLeast n f zero i j mono jn le enough = record {
  above = omega arith;
  below = le;
  fails = λ k p q. absurd (omega arith);
  holds = λ p. absurd (omega arith);
}
search_loop-IsLeast n f (suc fuel) i j mono jn le enough = elim (Bool-cases (ltb i j)) [
  | inr done ↦ rw done (record {
    above = omega arith;
    below = le;
    fails = λ k p q. absurd (omega arith);
    holds = λ p. absurd (omega (arith, ltb→ge i j done));
  })
  | inl more ↦ rw more (
      let lt = ltb→lt i j more in
      let h = (i + j) / 2 in
      elim (Bool-cases (f h)) [
        | inl yes' ↦ rw yes' (
            let ih =
              search_loop-IsLeast n f fuel i h mono (omega arith) (omega arith) (omega arith) in
            record {
              above = ih.above;
              below = omega (arith, ih.below);
              fails = ih.fails;
              holds = λ p. reaches f _ h ih.below ih.holds yes';
            })
        | inr no' ↦ rw no' (
            let ih = search_loop-IsLeast n f fuel (h + 1) j mono jn (omega arith) (omega arith) in
            record {
              above = omega (arith, ih.above);
              below = ih.below;
              fails = λ k p q. elim (dec_lt h k) [
                | yes r ↦ ih.fails k (omega arith) q
                | no r ↦ fails_below n f k h mono (omega arith) (omega arith) no'
              ];
              holds = ih.holds;
            })
      ])
]

-- The result is the least index below `n` at which the test holds, or `n`.
pub search-IsLeast : (n : ℕ) (f : ℕ → Bool) → Monotone n f → IsLeast f 0 n (search n f)
unfolding search
search-IsLeast n f mono =
    search_loop-IsLeast n f n 0 n mono (omega arith) (omega arith) (omega arith)

-- There is one such index.
pub IsLeast-eq : {f : ℕ → Bool} {i j r s : ℕ} → IsLeast f i j r → IsLeast f i j s → r ≡ s
IsLeast-eq {f} {i} {j} {r} {s} a b = elim (dec_lt r s) [
  | yes p ↦ disagree f r (a.holds (omega (arith, b.below))) (b.fails r a.above p)
  | no p ↦ elim (dec_lt s r) [
    | yes q ↦ disagree f s (b.holds (omega (arith, a.below))) (a.fails s b.above q)
    | no q ↦ omega arith
  ]
]
