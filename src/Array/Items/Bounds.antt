-- ===== src/Array/Items/Bounds.antt =====
-- Bounds on the indexes, and counts of the properties, of a changed list of items.
use sobek.Base.{
  lt→ltb, zero, suc, ℕ, ◌+◌, ◌≤◌, ◌<◌, List, [], ◌∷◌, ◌≡◌, refl, ap, arith, ltb, ltb→lt, Bool-cases,
  inl, inr, if◌then◌else◌, take,
}
use sobek.Property.{Slot}
use sobek.Array.Items.Insert.{place, lookup-above}
use sobek.Array.Items.{lookup, write_at, remove_at, Item, AllAbove, Sorted, rank, suc, some}
use sobek.Array.Items.Count.{All, count_below, count_props}
use sobek.Array.State.{is_prop}

pub take-within : (l : ℕ) (xs : List Item) → All (λ x. x.idx < l) (take (rank l xs) xs)
unfolding rank
take-within l [] = tt
take-within l (x ∷ xs) = elim (Bool-cases (ltb x.idx l)) [
  | inl lt ↦ rw lt (ltb→lt x.idx l lt, take-within l xs)
  | inr ge ↦ rw ge tt
]

count_below-above : (l n : ℕ) (xs : List Item) → AllAbove n xs → l ≤ n → count_below l xs ≡ 0
count_below-above l n [] a le = refl
count_below-above l n (x ∷ xs) a le = ground (arith, count_below-above l n xs a.1 le)

pub count_props-take :
    (l : ℕ) (xs : List Item) → Sorted xs → count_props (take (rank l xs) xs) ≡ count_below l xs
unfolding rank
count_props-take l [] s = refl
count_props-take l (x ∷ xs) s = elim (Bool-cases (ltb x.idx l)) [
  | inl lt ↦
      rw lt (ap (λ (n : ℕ). (if is_prop x.value then 1 else 0) + n) (count_props-take l xs s.1))
  | inr ge ↦ ground (arith, count_below-above l x.idx xs s.0)
]

pub All-place {ℓ} :
    (P : ℕ → Slot → Type ℓ) (idx : ℕ) (v : Slot) (xs : List Item)
    → P idx v
    → All (λ x. P x.idx x.value) xs
    → All (λ x. P x.idx x.value) (place idx v xs)
unfolding place
All-place P idx v [] p a = (p, tt)
All-place P idx v (x ∷ xs) p a = elim (Bool-cases (ltb x.idx idx)) [
  | inl lt ↦ rw lt (a.0, All-place P idx v xs p a.1)
  | inr ge ↦ rw ge (p, a)
]

pub count_props-place :
    (idx : ℕ) (v : Slot) (xs : List Item)
    → count_props (place idx v xs) ≡ (if is_prop v then 1 else 0) + count_props xs
unfolding place
count_props-place idx v [] = refl
count_props-place idx v (x ∷ xs) = elim (Bool-cases (ltb x.idx idx)) [
  | inl lt ↦ rw lt (omega (arith, count_props-place idx v xs))
  | inr ge ↦ rw ge
]

pub within-write_at :
    (n i : ℕ) (v : Slot) (xs : List Item)
    → All (λ x. x.idx < n) xs
    → All (λ x. x.idx < n) (write_at xs i v)
unfolding write_at
within-write_at n i v [] a = tt
within-write_at n zero v (x ∷ xs) a = a
within-write_at n (suc i) v (x ∷ xs) a = (a.0, within-write_at n i v xs a.1)

pub within-remove_at :
    (n idx : ℕ) (xs : List Item)
    → All (λ x. x.idx < n) xs
    → All (λ x. x.idx < n) (remove_at xs (rank idx xs))
unfolding remove_at rank
within-remove_at n idx [] a = tt
within-remove_at n idx (x ∷ xs) a = elim (Bool-cases (ltb x.idx idx)) [
  | inl lt ↦ rw lt (a.0, within-remove_at n idx xs a.1)
  | inr ge ↦ rw ge a.1
]

pub within_mono :
    (m n : ℕ) (xs : List Item) → m ≤ n → All (λ x. x.idx < m) xs → All (λ x. x.idx < n) xs
within_mono m n [] le a = tt
within_mono m n (x ∷ xs) le a = (omega arith, within_mono m n xs le a.1)

-- Overwriting and removing the item with an index that is there.
pub count_props-write_at :
    (idx : ℕ) (v u : Slot) (xs : List Item)
    → lookup idx xs ≡ some u
    → Sorted xs
    → count_props (write_at xs (rank idx xs) v) + (if is_prop u then 1 else 0)
      ≡ count_props xs + (if is_prop v then 1 else 0)
unfolding write_at rank
count_props-write_at idx v u [] e s = absurd (cc)
count_props-write_at idx v u (x ∷ xs) e s = elim (Bool-cases (ltb x.idx idx)) [
  | inl lt ↦ ground (arith, count_props-write_at idx v u xs)
  | inr ge ↦ ground (arith, lookup-above x.idx idx xs s.0)
]

pub count_props-remove_at :
    (idx : ℕ) (u : Slot) (xs : List Item)
    → lookup idx xs ≡ some u
    → Sorted xs
    → count_props (remove_at xs (rank idx xs)) + (if is_prop u then 1 else 0) ≡ count_props xs
unfolding remove_at rank
count_props-remove_at idx u [] e s = absurd (cc)
count_props-remove_at idx u (x ∷ xs) e s = elim (Bool-cases (ltb x.idx idx)) [
  | inl lt ↦ ground (arith, count_props-remove_at idx u xs)
  | inr ge ↦ ground (arith, lookup-above x.idx idx xs s.0)
]

pub take-rank-All : (n : ℕ) (xs : List Item) → All (λ x. x.idx < n) xs → take (rank n xs) xs ≡ xs
unfolding rank
take-rank-All n [] a = refl
take-rank-All n (x ∷ xs) a = rw (lt→ltb x.idx n a.0) (ap (λ l. x ∷ l) (take-rank-All n xs a.1))
