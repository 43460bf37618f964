-- ===== src/Array/Items/Rank.antt =====
-- The position that binary search finds, and the list operations at that position.
use sobek.Base.{
  ℕ, zero, suc, ◌≤◌, ◌<◌, List, [], ◌∷◌, ◌≡◌, arith, leb, ltb, length, Bool-cases, inl, inr, ltb→ge,
}
use sobek.Array.Search.{search-IsLeast, IsLeast, IsLeast-eq}
use sobek.Array.Items.{Item, idx_at, find_idx, AllAbove, Sorted, rank}

pub AllAbove-mono : (m n : ℕ) (xs : List Item) → m ≤ n → AllAbove n xs → AllAbove m xs
AllAbove-mono m n [] le a = tt
AllAbove-mono m n (x ∷ xs) le a = (omega arith, AllAbove-mono m n xs le a.1)

idx_at-above : (n : ℕ) (xs : List Item) (k : ℕ) → AllAbove n xs → k < length xs → n < idx_at xs k
idx_at-above n [] k a lt = absurd (omega arith)
idx_at-above n (x ∷ xs) zero a lt = a.0
idx_at-above n (x ∷ xs) (suc k) a lt = idx_at-above n xs k a.1 (omega arith)

idx_at_mono :
    (xs : List Item) (a b : ℕ) → Sorted xs → a ≤ b → b < length xs → idx_at xs a ≤ idx_at xs b
idx_at_mono [] a b s le lt = absurd (omega arith)
idx_at_mono (x ∷ xs) zero zero s le lt = omega arith
idx_at_mono (x ∷ xs) zero (suc b) s le lt = omega (arith, idx_at-above x.idx xs b s.0)
idx_at_mono (x ∷ xs) (suc a) zero s le lt = absurd (omega arith)
idx_at_mono (x ∷ xs) (suc a) (suc b) s le lt = idx_at_mono xs a b s.1 (omega arith) (omega arith)

pub rank-le-length : (idx : ℕ) (xs : List Item) → rank idx xs ≤ length xs
unfolding rank
rank-le-length idx [] = omega arith
rank-le-length idx (x ∷ xs) = ground (arith, rank-le-length idx xs)

rank-fails : (idx : ℕ) (xs : List Item) (k : ℕ) → k < rank idx xs → idx_at xs k < idx
unfolding rank
rank-fails idx [] k lt = absurd (omega arith)
rank-fails idx (x ∷ xs) zero lt = ground arith
rank-fails idx (x ∷ xs) (suc k) lt = ground (arith, rank-fails idx xs k)

rank-holds : (idx : ℕ) (xs : List Item) → rank idx xs < length xs → idx ≤ idx_at xs (rank idx xs)
unfolding rank
rank-holds idx [] lt = absurd (omega arith)
rank-holds idx (x ∷ xs) lt = elim (Bool-cases (ltb x.idx idx)) [
  | inl p ↦ rw p (rank-holds idx xs (ground arith))
  | inr n ↦ rw n (ltb→ge x.idx idx n)
]

rank-IsLeast :
    (idx : ℕ) (xs : List Item) → IsLeast (λ k. leb idx (idx_at xs k)) 0 (length xs) (rank idx xs)
rank-IsLeast idx xs = record {
  above = omega arith;
  below = rank-le-length idx xs;
  fails = λ k p q. ground (arith, rank-fails idx xs k);
  holds = λ p. ground (arith, rank-holds idx xs);
}

-- Over sorted items, `findIdx` gives the number of items with a smaller index.
pub find_idx-rank : (xs : List Item) (idx : ℕ) → Sorted xs → find_idx xs idx ≡ rank idx xs
unfolding find_idx
find_idx-rank xs idx s =
    IsLeast-eq
      (search-IsLeast (length xs) (λ k. leb idx (idx_at xs k))
        (λ a b le lt h. ground (arith, idx_at_mono xs a b s le lt)))
      (rank-IsLeast idx xs)
