-- ===== src/Array/Items/Change.antt =====
-- Removal, overwriting and truncation at the position that binary search finds.
use sobek.Base.{
  is_some, ℕ, zero, suc, List, [], ◌∷◌, none, some, ◌≡◌, arith, ltb, ◌==◌, if◌then◌else◌,
  Bool-cases, inl, inr, take,
}
use sobek.Property.{Slot}
use sobek.Array.Items.{Item, remove_at, write_at, AllAbove, Sorted, lookup, rank, true}
use sobek.Array.Items.Insert.{lookup-above}

pub lookup-remove_at :
    (idx j : ℕ) (xs : List Item)
    → Sorted xs
    → is_some (lookup idx xs) ≡ true
    → lookup j (remove_at xs (rank idx xs)) ≡ (if idx == j then none else lookup j xs)
unfolding remove_at rank
lookup-remove_at idx j [] s h = cc
lookup-remove_at idx j (x ∷ xs) s h = elim (Bool-cases (ltb x.idx idx)) [
  | inl p ↦ ground (arith, lookup-remove_at idx j xs s.1)
  | inr n ↦ ground (arith, lookup-above x.idx idx xs s.0, lookup-above x.idx j xs s.0)
]

pub AllAbove-remove_at :
    (n idx : ℕ) (xs : List Item) → AllAbove n xs → AllAbove n (remove_at xs (rank idx xs))
unfolding remove_at rank
AllAbove-remove_at n idx [] a = tt
AllAbove-remove_at n idx (x ∷ xs) a = elim (Bool-cases (ltb x.idx idx)) [
  | inl p ↦ rw p (a.0, AllAbove-remove_at n idx xs a.1)
  | inr m ↦ rw m a.1
]

pub remove_at-Sorted : (idx : ℕ) (xs : List Item) → Sorted xs → Sorted (remove_at xs (rank idx xs))
unfolding remove_at rank
remove_at-Sorted idx [] s = tt
remove_at-Sorted idx (x ∷ xs) s = elim (Bool-cases (ltb x.idx idx)) [
  | inl p ↦ rw p (AllAbove-remove_at x.idx idx xs s.0, remove_at-Sorted idx xs s.1)
  | inr m ↦ rw m s.1
]

pub lookup-write_at :
    (idx j : ℕ) (w : Slot) (xs : List Item)
    → Sorted xs
    → is_some (lookup idx xs) ≡ true
    → lookup j (write_at xs (rank idx xs) w) ≡ (if idx == j then some w else lookup j xs)
unfolding write_at rank
lookup-write_at idx j w [] s h = cc
lookup-write_at idx j w (x ∷ xs) s h = elim (Bool-cases (ltb x.idx idx)) [
  | inl p ↦ ground (arith, lookup-write_at idx j w xs s.1)
  | inr n ↦ ground (arith, lookup-above x.idx idx xs s.0)
]

pub AllAbove-write_at :
    (n i : ℕ) (w : Slot) (xs : List Item) → AllAbove n xs → AllAbove n (write_at xs i w)
unfolding write_at
AllAbove-write_at n i w [] a = tt
AllAbove-write_at n zero w (x ∷ xs) a = a
AllAbove-write_at n (suc i) w (x ∷ xs) a = (a.0, AllAbove-write_at n i w xs a.1)

pub write_at-Sorted : (i : ℕ) (w : Slot) (xs : List Item) → Sorted xs → Sorted (write_at xs i w)
unfolding write_at
write_at-Sorted i w [] s = tt
write_at-Sorted zero w (x ∷ xs) s = s
write_at-Sorted (suc i) w (x ∷ xs) s =
    (AllAbove-write_at x.idx i w xs s.0, write_at-Sorted i w xs s.1)

-- Cutting the list at the position of `l` keeps the items below `l`.
pub lookup-take :
    (l j : ℕ) (xs : List Item)
    → Sorted xs
    → lookup j (take (rank l xs) xs) ≡ (if ltb j l then lookup j xs else none)
unfolding rank
lookup-take l j [] s = ground arith
lookup-take l j (x ∷ xs) s = elim (Bool-cases (ltb x.idx l)) [
  | inl p ↦ ground (arith, lookup-take l j xs s.1)
  | inr n ↦ ground (arith, lookup-above x.idx j xs s.0)
]

pub AllAbove-take : (n i : ℕ) (xs : List Item) → AllAbove n xs → AllAbove n (take i xs)
AllAbove-take n zero xs a = tt
AllAbove-take n (suc i) [] a = tt
AllAbove-take n (suc i) (x ∷ xs) a = (a.0, AllAbove-take n i xs a.1)

pub take-Sorted : (i : ℕ) (xs : List Item) → Sorted xs → Sorted (take i xs)
take-Sorted zero xs s = tt
take-Sorted (suc i) [] s = tt
take-Sorted (suc i) (x ∷ xs) s = (AllAbove-take x.idx i xs s.0, take-Sorted i xs s.1)
