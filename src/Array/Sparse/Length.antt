-- ===== src/Array/Sparse/Length.antt =====
-- Setting the length of a sparse array: what is cut off, and what stops the cut.
use sobek.Base.{
  ◌-◌, ℕ, zero, suc, ◌≤◌, ◌<◌, Bool, true, false, List, [], ◌∷◌, none, some, ◌≡◌, refl, arith, ltb,
  if◌then◌else◌, Bool-cases, inl, inr, ◌⊎◌, take, ltb→ge, ◌∙◌,
}
use sobek.Base.Int.{ℤ}
use sobek.Property.{Slot, plain, prop}
use sobek.Array.Items.Rank.{find_idx-rank}
use sobek.Array.Items.Change.{lookup-take, take-Sorted}
use sobek.Array.Items.{Item, Sorted, lookup, find_idx, rank}
use sobek.Array.Items.Count.{HasFrozen-lookup, lookup-All, All, count_below, HasFrozen}
use sobek.Array.State.{SparseArray, Result, returned, refuse, Covers, state, Removable, Frozen}
use sobek.Array.Sparse.{cut_at, truncate, cut_at}
use sobek.Array.Items.Bounds.{take-within, count_props-take}
use sobek.Array.Sparse.Cut.{WellFormed, CutOff, cut_items}

-- The result of asking for length `l`: exactly the items below the new length are kept; no item
-- that is not configurable goes; and the length is `l`, or else the operation is refused, and the
-- last index of the new length holds such an item.
pub record Truncated (l : ℕ) (throw : Bool) (a : SparseArray) (r : Result SparseArray)
    : Type 0 where
  pub kept :
      (j : ℕ)
      → lookup j (state r).items ≡ (if ltb j (state r).length then lookup j a.items else none)
  pub frozen :
      (j : ℕ) (v : Slot) → lookup j a.items ≡ some v → Frozen v → lookup j (state r).items ≡ some v
  pub flag :
      (r ≡ returned true (state r)) × ((state r).length ≡ l)
      ⊎ (r ≡ refuse throw (state r))
        × (l < (state r).length)
        × ((v : Slot) × (lookup ((state r).length - 1) a.items ≡ some v) × Frozen v)
  pub valid : WellFormed (state r)

Frozen-not_Removable : (v : Slot) → Frozen v → Removable v → ⊥
Frozen-not_Removable (plain u) f r = f
Frozen-not_Removable (prop p) f r = cc

last-Frozen :
    (n : ℕ) (xs : List Item)
    → Sorted xs
    → HasFrozen n xs
    → (v : Slot) × (lookup (n - 1) xs ≡ some v) × Frozen v
last-Frozen zero xs s h = absurd (not_zero xs h)
  where
    not_zero : (ys : List Item) → HasFrozen 0 ys → ⊥
    not_zero [] h = h
    not_zero (y ∷ ys) (inl b) = omega (arith, b.0)
    not_zero (y ∷ ys) (inr h) = not_zero ys h
last-Frozen (suc n) xs s h =
    let (v, e, f) = HasFrozen-lookup n xs s h in
    let q : suc n - 1 ≡ n = omega arith in (v, rw q e, f)

module _ (xs : List Item) (l l' : ℕ) (s : Sorted xs)
    (r : All (λ x. l' ≤ x.idx → Removable x.value) xs) where
  kept_items :
      (j : ℕ) → lookup j (take (find_idx xs l') xs) ≡ (if ltb j l' then lookup j xs else none)
  kept_items j = rw (find_idx-rank xs l' s) (lookup-take l' j xs s)

  Frozen-items :
      (j : ℕ) (v : Slot)
      → lookup j xs ≡ some v
      → Frozen v
      → lookup j (take (find_idx xs l') xs) ≡ some v
  Frozen-items j v e f = elim (Bool-cases (ltb j l')) [
    | inl lt ↦ kept_items j ∙ rw lt e
    | inr ge ↦ absurd (
        Frozen-not_Removable v f
          (lookup-All (λ i u. l' ≤ i → Removable u) j xs r e (ltb→ge j l' ge)))
  ]

valid_items :
    (a : SparseArray) (l' : ℕ) (count : ℤ)
    → WellFormed a
    → Covers count (count_below l' a.items)
    → WellFormed (record a {
      items = take (find_idx a.items l') a.items;
      length = l';
      prop_value_count = count;
    })
valid_items a l' count w c = rw (find_idx-rank a.items l' w.sorted) (record {
  sorted = take-Sorted (rank l' a.items) a.items w.sorted;
  within = take-within l' a.items;
  covers = rw (count_props-take l' a.items w.sorted) c;
})

cut_at-Truncated :
    (l : ℕ) (throw : Bool) (a : SparseArray) (r : ℕ × Bool × ℤ)
    → WellFormed a
    → CutOff a.items l r
    → Truncated l throw a (cut_at throw a r)
unfolding cut_at
cut_at-Truncated l throw a (l', true, count) w c = record {
  kept = kept_items a.items l l' w.sorted c.removable;
  frozen = Frozen-items a.items l l' w.sorted c.removable;
  flag = inl (refl, c.whole refl);
  valid = valid_items a l' count w c.covers;
}
cut_at-Truncated l true a (l', false, count) w c = record {
  kept = kept_items a.items l l' w.sorted c.removable;
  frozen = Frozen-items a.items l l' w.sorted c.removable;
  flag = inr (refl, (c.stopped refl).0, last-Frozen l' a.items w.sorted (c.stopped refl).1);
  valid = valid_items a l' count w c.covers;
}
cut_at-Truncated l false a (l', false, count) w c = record {
  kept = kept_items a.items l l' w.sorted c.removable;
  frozen = Frozen-items a.items l l' w.sorted c.removable;
  flag = inr (refl, (c.stopped refl).0, last-Frozen l' a.items w.sorted (c.stopped refl).1);
  valid = valid_items a l' count w c.covers;
}

-- Setting the length of a well-formed sparse array keeps exactly the items below the length it
-- arrives at and takes away none that is not configurable. Either that is the length asked for, or
-- the operation is refused and the last index below the new, greater length holds such an item. The
-- array stays well formed.
pub truncate-Truncated :
    (l : ℕ) (throw : Bool) (a : SparseArray)
    → WellFormed a
    → Truncated l throw a (truncate l throw a)
unfolding truncate
truncate-Truncated l throw a w = cut_at-Truncated l throw a _ w (cut_items l a w)
