-- ===== src/Array/Sparse/Switch.antt =====
-- The switch from the sparse to the dense representation keeps every slot.
use sobek.Base.{
  ℕ, ◌+◌, ◌-◌, ◌≤◌, ◌<◌, List, [], ◌∷◌, Option, none, ◌≡◌, arith, ltb, if◌then◌else◌, length,
  replicate, length-replicate, ◌∙◌, ap,
}
use sobek.Property.{Slot}
use sobek.Array.Items.{Item, Sorted, lookup, idx_at, value_at, find_idx}
use sobek.Array.Items.Rank.{find_idx-rank}
use sobek.Array.Items.Insert.{value_at-rank}
use sobek.Array.Items.Count.{All, count_props}
use sobek.Array.Slots.{slot_at, slot_at-replicate, count_slots, count_slots-replicate}
use sobek.Array.Slots.Fill.{
  slot_at-fill_values, count_slots-fill_values, last-le, length-fill_values,
}
use sobek.Array.State.{SparseArray}
use sobek.Array.Sparse.{get_idx, to_dense, last_idx}

-- Over sorted items `_getIdx` finds the item with the index, if there is one.
pub get_idx-lookup :
    (idx : ℕ) (a : SparseArray) → Sorted a.items → get_idx idx a ≡ lookup idx a.items
unfolding get_idx
get_idx-lookup idx a s = rw (find_idx-rank a.items idx s) (value_at-rank idx a.items s)

pub get_idx-items :
    (idx : ℕ) (a b : SparseArray) → a.items ≡ b.items → get_idx idx a ≡ get_idx idx b
unfolding get_idx
get_idx-items idx a b e = ap (λ xs. value_at xs (find_idx xs idx) idx) e

-- The greater of an index and the last item's.
abbrev pub max_idx : ℕ → List Item → ℕ
max_idx idx xs = if ltb idx (last_idx xs) then last_idx xs else idx

weaken : (m n : ℕ) (xs : List Item) → m < n → All (λ x. x.idx ≤ m) xs → All (λ x. x.idx < n) xs
weaken m n [] h a = tt
weaken m n (x ∷ xs) h a = (omega arith, weaken m n xs h a.1)

within_max : (idx : ℕ) (xs : List Item) → Sorted xs → All (λ x. x.idx < max_idx idx xs + 1) xs
within_max idx [] s = tt
within_max idx (x ∷ xs) s =
    let e : length (x ∷ xs) - 1 ≡ length xs = omega arith in
    weaken (idx_at (x ∷ xs) (length xs)) _ (x ∷ xs) (rw e (ground arith)) (last-le x xs s)

All-none : (n : ℕ) (xs : List Item) → All (λ x. slot_at (replicate n none) x.idx ≡ none) xs
All-none n [] = tt
All-none n (x ∷ xs) = (slot_at-replicate n x.idx, All-none n xs)

within_replicate :
    (n : ℕ) (xs : List Item)
    → All (λ x. x.idx < n) xs
    → All (λ x. x.idx < length (replicate {A = Option Slot} n none)) xs
within_replicate n xs a = rw (length-replicate {A = Option Slot} n none) a

pub to_dense-slot :
    (idx j : ℕ) (a : SparseArray)
    → Sorted a.items
    → slot_at (to_dense idx a).values j ≡ lookup j a.items
unfolding to_dense
to_dense-slot idx j a s =
    let n = max_idx idx a.items + 1 in
    slot_at-fill_values a.items (replicate n none) j s
      (within_replicate n a.items (within_max idx a.items s))
    ∙ ground (arith, slot_at-replicate n j)

pub to_dense-count :
    (idx : ℕ) (a : SparseArray)
    → Sorted a.items
    → count_slots (to_dense idx a).values ≡ count_props a.items
unfolding to_dense
to_dense-count idx a s =
    let n = max_idx idx a.items + 1 in
    count_slots-fill_values a.items (replicate n none) s
      (within_replicate n a.items (within_max idx a.items s)) (All-none n a.items)
    ∙ omega (arith, count_slots-replicate n)

pub length-to_dense :
    (idx : ℕ) (a : SparseArray) → length (to_dense idx a).values ≡ max_idx idx a.items + 1
unfolding to_dense
length-to_dense idx a =
    length-fill_values a.items (replicate (max_idx idx a.items + 1) none)
    ∙ length-replicate (max_idx idx a.items + 1) none

-- The last index is that of an item, or 0.
pub last-lt : (n : ℕ) (xs : List Item) → 0 < n → All (λ x. x.idx < n) xs → last_idx xs < n
last-lt n [] p a = p
last-lt n (x ∷ xs) p a = let e : length (x ∷ xs) - 1 ≡ length xs = omega arith in rw e (go x xs a)
  where
    go :
        (x : Item) (xs : List Item)
        → All (λ y. y.idx < n) (x ∷ xs)
        → idx_at (x ∷ xs) (length xs) < n
    go x [] a = a.0
    go x (y ∷ ys) a = go y ys a.1
