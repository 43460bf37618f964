-- ===== src/Array/Items.antt =====
-- The items of a sparse array (`sparseArrayItem`), sorted by index: what the positions that the
-- code computes by binary search stand for.
pub mod Rank
pub mod Insert
pub mod Change
pub mod Count
pub mod Bounds
use sobek.Base.{
  ℕ, zero, suc, ◌+◌, ◌≤◌, ◌<◌, Bool, true, false, List, [], ◌∷◌, ◌++◌, Option, none, some, ◌≡◌,
  refl, arith, leb, ltb, ◌==◌, if◌then◌else◌, length, get_elem?, take, drop,
}
use sobek.Property.{Slot}
use sobek.Array.Search.{search}

pub record Item : Type 0 where
  pub idx : ℕ
  pub value : Slot

abbrev pub item : ℕ → Slot → Item
item i v = record { idx = i; value = v }

-- The index of the item at a position; the code asks within the list only.
abbrev pub idx_at : List Item → ℕ → ℕ
idx_at [] k = 0
idx_at (x ∷ xs) zero = x.idx
idx_at (x ∷ xs) (suc k) = idx_at xs k

-- `findIdx`
unfoldable pub find_idx : List Item → ℕ → ℕ
find_idx items idx = search (length items) (λ k. leb idx (idx_at items k))

-- `i < len(items) && items[i].idx == idx`, and then `items[i].value`
unfoldable pub value_at : List Item → ℕ → ℕ → Option Slot
value_at [] i idx = none
value_at (x ∷ xs) zero idx = if x.idx == idx then some x.value else none
value_at (x ∷ xs) (suc i) idx = value_at xs i idx

-- Shifting the tail by one makes room for an item at position `i`.
unfoldable pub insert_at : List Item → ℕ → Item → List Item
insert_at items i x = take i items ++ (x ∷ drop i items)

unfoldable pub remove_at : List Item → ℕ → List Item
remove_at items i = take i items ++ drop (suc i) items

unfoldable pub write_at : List Item → ℕ → Slot → List Item
write_at [] i v = []
write_at (x ∷ xs) zero v = record x { value = v } ∷ xs
write_at (x ∷ xs) (suc i) v = x ∷ write_at xs i v

-- Sortedness: each index is below all later ones.
abbrev pub AllAbove : ℕ → List Item → Type 0
AllAbove n [] = Unit
AllAbove n (x ∷ xs) = (n < x.idx) × AllAbove n xs

abbrev pub Sorted : List Item → Type 0
Sorted [] = Unit
Sorted (x ∷ xs) = AllAbove x.idx xs × Sorted xs

-- What the items stand for.
abbrev pub lookup : ℕ → List Item → Option Slot
lookup idx [] = none
lookup idx (x ∷ xs) = if x.idx == idx then some x.value else lookup idx xs

-- How many items have a smaller index, counted from the front.
pub rank : ℕ → List Item → ℕ
rank idx [] = 0
rank idx (x ∷ xs) = if ltb x.idx idx then suc (rank idx xs) else 0
