-- ===== src/File/Find.antt =====
-- Line numbers among ascending offsets.
use sobek.Base.{
  ℕ, zero, suc, ◌+◌, ◌≤◌, ◌<◌, List, [], ◌∷◌, ◌++◌, ◌≡◌, refl, arith, ltb, leb, if◌then◌else◌,
  length, Bool-cases, inl, inr,
}
use sobek.Array.Search.{search-IsLeast, IsLeast-eq}
use sobek.File.{offset_at, find_line}

abbrev pub AllLe : ℕ → List ℕ → Type 0
AllLe n [] = Unit
AllLe n (x ∷ xs) = (x ≤ n) × AllLe n xs

abbrev pub AllGt : ℕ → List ℕ → Type 0
AllGt n [] = Unit
AllGt n (x ∷ xs) = (n < x) × AllGt n xs

abbrev pub Ascending : List ℕ → Type 0
Ascending [] = Unit
Ascending (x ∷ xs) = AllGt x xs × Ascending xs

-- How many of the offsets are at or before a place.
abbrev pub count_le : ℕ → List ℕ → ℕ
count_le n [] = 0
count_le n (x ∷ xs) = if leb x n then suc (count_le n xs) else count_le n xs

-- Where the line with a number begins, counted from 0, by the line starts after the first.
abbrev pub begins : List ℕ → ℕ → ℕ
begins xs k = offset_at (0 ∷ xs) k

pub AllGt-mono : (m n : ℕ) (xs : List ℕ) → m ≤ n → AllGt n xs → AllGt m xs
AllGt-mono m n [] le a = tt
AllGt-mono m n (x ∷ xs) le a = (omega arith, AllGt-mono m n xs le a.1)

pub AllLe-mono : (m n : ℕ) (xs : List ℕ) → m ≤ n → AllLe m xs → AllLe n xs
AllLe-mono m n [] le a = tt
AllLe-mono m n (x ∷ xs) le a = (omega arith, AllLe-mono m n xs le a.1)

pub AllLe-append : (n : ℕ) (xs : List ℕ) (x : ℕ) → AllLe n xs → x ≤ n → AllLe n (xs ++ (x ∷ []))
AllLe-append n [] x a le = (le, tt)
AllLe-append n (y ∷ ys) x a le = (a.0, AllLe-append n ys x a.1 le)

pub Ascending-append :
    (n : ℕ) (xs : List ℕ) (x : ℕ) → Ascending xs → AllLe n xs → n < x → Ascending (xs ++ (x ∷ []))
Ascending-append n [] x s a lt = (tt, tt)
Ascending-append n (y ∷ ys) x s a lt = (above ys s.0, Ascending-append n ys x s.1 a.1 lt)
  where
    above : (zs : List ℕ) → AllGt y zs → AllGt y (zs ++ (x ∷ []))
    above [] g = (omega (arith, a.0), tt)
    above (z ∷ zs) g = (g.0, above zs g.1)

pub count_le-of_le : (n : ℕ) (xs : List ℕ) → AllLe n xs → count_le n xs ≡ length xs
count_le-of_le n [] a = refl
count_le-of_le n (x ∷ xs) a = ground (arith, count_le-of_le n xs a.1)

pub count_le-of_gt : (n : ℕ) (xs : List ℕ) → AllGt n xs → count_le n xs ≡ 0
count_le-of_gt n [] a = refl
count_le-of_gt n (x ∷ xs) a = ground (arith, count_le-of_gt n xs a.1)

pub count_le-append :
    (n : ℕ) (xs ys : List ℕ) → count_le n (xs ++ ys) ≡ count_le n xs + count_le n ys
count_le-append n [] ys = omega arith
count_le-append n (x ∷ xs) ys = ground (arith, count_le-append n xs ys)

pub count_le-le : (n : ℕ) (xs : List ℕ) → count_le n xs ≤ length xs
count_le-le n [] = omega arith
count_le-le n (x ∷ xs) = ground (arith, count_le-le n xs)

pub offset_at-append :
    (xs ys : List ℕ) (k : ℕ) → k < length xs → offset_at (xs ++ ys) k ≡ offset_at xs k
offset_at-append [] ys k lt = absurd (omega arith)
offset_at-append (x ∷ xs) ys zero lt = refl
offset_at-append (x ∷ xs) ys (suc k) lt = offset_at-append xs ys k (omega arith)

begins-cons-le :
    (n m : ℕ) (xs : List ℕ) → Ascending xs → m ≤ n → offset_at (m ∷ xs) (count_le n xs) ≤ n
begins-cons-le n m [] s le = le
begins-cons-le n m (x ∷ xs) s le = elim (Bool-cases (leb x n)) [
  | inl y ↦ rw y (begins-cons-le n x xs s.1 (ground arith))
  | inr no' ↦
      let none_left : count_le n xs ≡ 0 =
        count_le-of_gt n xs (AllGt-mono n x xs (ground arith) s.0) in
      rw (no', none_left) le
]

-- The line that an offset is counted to begins at or before it.
pub begins-le : (n : ℕ) (xs : List ℕ) → Ascending xs → begins xs (count_le n xs) ≤ n
begins-le n xs s = begins-cons-le n 0 xs s (omega arith)

at-above : (n : ℕ) (xs : List ℕ) (k : ℕ) → AllGt n xs → k < length xs → n < offset_at xs k
at-above n [] k a lt = absurd (omega arith)
at-above n (x ∷ xs) zero a lt = a.0
at-above n (x ∷ xs) (suc k) a lt = at-above n xs k a.1 (omega arith)

at_mono :
    (xs : List ℕ) (a b : ℕ) → Ascending xs → a ≤ b → b < length xs → offset_at xs a ≤ offset_at xs b
at_mono [] a b s le lt = absurd (omega arith)
at_mono (x ∷ xs) zero zero s le lt = omega arith
at_mono (x ∷ xs) zero (suc b) s le lt = omega (arith, at-above x xs b s.0)
at_mono (x ∷ xs) (suc a) zero s le lt = absurd (omega arith)
at_mono (x ∷ xs) (suc a) (suc b) s le lt = at_mono xs a b s.1 (omega arith) (omega arith)

count-fails : (n : ℕ) (xs : List ℕ) (k : ℕ) → Ascending xs → k < count_le n xs → offset_at xs k ≤ n
count-fails n [] k s lt = absurd (omega arith)
count-fails n (x ∷ xs) zero s lt = elim (Bool-cases (leb x n)) [
  | inl y ↦ ground arith
  | inr no' ↦ absurd (ground (arith, count_le-of_gt n xs (AllGt-mono n x xs (ground arith) s.0)))
]
count-fails n (x ∷ xs) (suc k) s lt = elim (Bool-cases (leb x n)) [
  | inl y ↦ count-fails n xs k s.1 (ground arith)
  | inr no' ↦ absurd (ground (arith, count_le-of_gt n xs (AllGt-mono n x xs (ground arith) s.0)))
]

count-holds :
    (n : ℕ) (xs : List ℕ)
    → Ascending xs
    → count_le n xs < length xs
    → n < offset_at xs (count_le n xs)
count-holds n [] s lt = absurd (omega arith)
count-holds n (x ∷ xs) s lt = elim (Bool-cases (leb x n)) [
  | inl y ↦ rw y (count-holds n xs s.1 (ground arith))
  | inr no' ↦
      let none_left : count_le n xs ≡ 0 =
        count_le-of_gt n xs (AllGt-mono n x xs (ground arith) s.0) in
      rw (no', none_left) (ground arith)
]

-- The binary search among the offsets found so far counts those at or before the offset.
pub find_line-count_le : (n : ℕ) (xs : List ℕ) → Ascending xs → find_line n xs ≡ count_le n xs
unfolding find_line
find_line-count_le n xs s =
    IsLeast-eq
      (search-IsLeast (length xs) (λ x. ltb n (offset_at xs x))
        (λ a b le lt h. ground (arith, at_mono xs a b s le lt)))
      (record {
        above = omega arith;
        below = count_le-le n xs;
        fails = λ k p q. ground (arith, count-fails n xs k s q);
        holds = λ p. ground (arith, count-holds n xs s p);
      })
