-- ===== src/Array/Items/Insert.antt =====
-- Insertion at the position that binary search finds.
use sobek.Base.{
  ℕ, ◌≤◌, ◌<◌, List, [], ◌∷◌, none, some, ◌≡◌, refl, ap, arith, ltb, ◌==◌, if◌then◌else◌,
  Bool-cases, inl, inr, ltb→lt,
}
use sobek.Property.{Slot}
use sobek.Array.Items.{Item, item, value_at, insert_at, AllAbove, Sorted, lookup, rank}
use sobek.Array.Items.Rank.{AllAbove-mono}

-- Insertion in order.
unfoldable pub place : ℕ → Slot → List Item → List Item
place idx v [] = item idx v ∷ []
place idx v (x ∷ xs) = if ltb x.idx idx then x ∷ place idx v xs else item idx v ∷ (x ∷ xs)

pub insert_at-rank :
    (idx : ℕ) (v : Slot) (xs : List Item) → insert_at xs (rank idx xs) (item idx v) ≡ place idx v xs
unfolding insert_at rank place
insert_at-rank idx v [] = refl
insert_at-rank idx v (x ∷ xs) = elim (Bool-cases (ltb x.idx idx)) [
  | inl p ↦ rw p (ap (λ l. x ∷ l) (insert_at-rank idx v xs))
  | inr n ↦ rw n
]

pub lookup-above : (n idx : ℕ) (xs : List Item) → AllAbove n xs → idx ≤ n → lookup idx xs ≡ none
lookup-above n idx [] a le = refl
lookup-above n idx (x ∷ xs) a le = ground (arith, lookup-above n idx xs a.1 le)

pub value_at-rank :
    (idx : ℕ) (xs : List Item) → Sorted xs → value_at xs (rank idx xs) idx ≡ lookup idx xs
unfolding value_at rank
value_at-rank idx [] s = refl
value_at-rank idx (x ∷ xs) s = elim (Bool-cases (ltb x.idx idx)) [
  | inl p ↦ ground (arith, value_at-rank idx xs s.1)
  | inr n ↦ ground (arith, lookup-above x.idx idx xs s.0)
]

pub lookup-place :
    (idx j : ℕ) (v : Slot) (xs : List Item)
    → lookup idx xs ≡ none
    → lookup j (place idx v xs) ≡ (if idx == j then some v else lookup j xs)
unfolding place
lookup-place idx j v [] n = refl
lookup-place idx j v (x ∷ xs) n = ground (arith, lookup-place idx j v xs)

pub AllAbove-place :
    (n idx : ℕ) (v : Slot) (xs : List Item) → n < idx → AllAbove n xs → AllAbove n (place idx v xs)
unfolding place
AllAbove-place n idx v [] lt a = (lt, tt)
AllAbove-place n idx v (x ∷ xs) lt a = elim (Bool-cases (ltb x.idx idx)) [
  | inl p ↦ rw p (a.0, AllAbove-place n idx v xs lt a.1)
  | inr m ↦ rw m (lt, a)
]

pub place-Sorted :
    (idx : ℕ) (v : Slot) (xs : List Item)
    → lookup idx xs ≡ none
    → Sorted xs
    → Sorted (place idx v xs)
unfolding place
place-Sorted idx v [] n s = (tt, tt)
place-Sorted idx v (x ∷ xs) n s = elim (Bool-cases (ltb x.idx idx)) [
  | inl p ↦ rw p (
    AllAbove-place x.idx idx v xs (ltb→lt x.idx idx p) s.0,
    place-Sorted idx v xs (ground arith) s.1,
  )
  | inr m ↦
      let lt : idx < x.idx = ground arith in
      rw m ((lt, AllAbove-mono idx x.idx xs (omega arith) s.0), s)
]
