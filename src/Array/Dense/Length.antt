-- ===== src/Array/Dense/Length.antt =====
-- Setting the length of a dense array: what is cut off, and what stops the cut.
use sobek.Base.{
  ℕ, zero, suc, ◌-◌, ◌/◌, ◌≤◌, ◌<◌, Bool, true, false, List, [], ◌∷◌, Option, none, some, ◌≡◌, ◌⊎◌,
  inl, inr, refl, arith, ltb, leb, if◌then◌else◌, length, take, ◌∙◌, Bool-cases, ltb→ge, ◌&&◌,
}
use sobek.Base.Int.{ℤ}
use sobek.Property.{Slot, plain, prop}
use sobek.Array.State.{DenseArray, Result, returned, refuse, state, Frozen}
use sobek.Array.Slots.{slot_at}
use sobek.Array.Dense.{cut_at, truncate, get_idx}
use sobek.Array.Own.{ValidDense}
use sobek.Array.Dense.Cut.{Cut, Loose, Stuck, Cut-values, slot_at-take}

-- The result of asking for length `l`: exactly the slots below the new length are kept; no property
-- that is not configurable goes; and the length is `l`, or else the operation is refused, and the
-- last slot of the new length holds such a property.
pub record Truncated (l : ℕ) (throw : Bool) (a : DenseArray) (r : Result DenseArray) : Type 0 where
  pub kept : (j : ℕ) → get_idx j (state r) ≡ (if ltb j (state r).length then get_idx j a else none)
  pub frozen : (j : ℕ) (v : Slot) → get_idx j a ≡ some v → Frozen v → get_idx j (state r) ≡ some v
  pub flag :
      (r ≡ returned true (state r)) × ((state r).length ≡ l)
      ⊎ (r ≡ refuse throw (state r))
        × (l < (state r).length)
        × ((v : Slot) × (get_idx ((state r).length - 1) a ≡ some v) × Frozen v)
  pub valid : ValidDense (state r)

take-of_ge : (n : ℕ) (vs : List (Option Slot)) → length vs ≤ n → take n vs ≡ vs
take-of_ge zero [] le = refl
take-of_ge zero (v ∷ vs) le = absurd (omega arith)
take-of_ge (suc n) [] le = refl
take-of_ge (suc n) (v ∷ vs) le = rw (take-of_ge n vs (omega arith)) refl

length-take_le :
    (n : ℕ) (vs : List (Option Slot)) → (length (take n vs) ≤ n) × (length (take n vs) ≤ length vs)
length-take_le zero vs = (omega arith, omega arith)
length-take_le (suc n) [] = (omega arith, omega arith)
length-take_le (suc n) (v ∷ vs) = let (a, b) = length-take_le n vs in (omega arith, omega arith)

Frozen-not_Loose : (v : Slot) → Frozen v → Loose (some v) → ⊥
Frozen-not_Loose (plain u) f r = f
Frozen-not_Loose (prop p) f r = cc

Stuck-some : (x : Option Slot) → Stuck x → (v : Slot) × (x ≡ some v) × Frozen v
Stuck-some none s = absurd s
Stuck-some (some v) s = (v, refl, s)

-- The array that `cut_at` leaves.
abbrev left : ℕ → ℤ → DenseArray → DenseArray
left l count a =
    let cut = leb l (length a.values) in
    record a {
      values = if cut then take l a.values else a.values;
      capacity = if cut && (leb 16 l && ltb l (a.capacity / 4)) then l else a.capacity;
      length = l;
      prop_value_count = count;
    }

module _ (l l' : ℕ) (ret : Bool) (count : ℤ) (a : DenseArray) (w : ValidDense a)
    (c : Cut a.values l (l', ret, count)) where
  left_values : (left l' count a).values ≡ take l' a.values
  left_values = elim (Bool-cases (leb l' (length a.values))) [
    | inl y ↦ rw y refl
    | inr n ↦ rw (n, take-of_ge l' a.values (ground arith)) refl
  ]

  left-kept :
      (j : ℕ) → slot_at (left l' count a).values j ≡ (if ltb j l' then slot_at a.values j else none)
  left-kept j = rw left_values (slot_at-take l' a.values j)

  left-Frozen :
      (j : ℕ) (v : Slot)
      → slot_at a.values j ≡ some v
      → Frozen v
      → slot_at (left l' count a).values j ≡ some v
  left-Frozen j v e f = elim (Bool-cases (ltb j l')) [
    | inl lt ↦ left-kept j ∙ rw lt e
    | inr ge ↦ absurd (Frozen-not_Loose v f (rw e at (c.loose j (ltb→ge j l' ge))))
  ]

  left-Valid : ValidDense (left l' count a)
  left-Valid =
      let (short, le) = length-take_le l' a.values in
      record {
        within = rw left_values short;
        room = rw left_values (ground (arith, w.room));
        covers = rw left_values c.covers;
      }

cut_at-Truncated :
    (l : ℕ) (throw : Bool) (a : DenseArray) (r : ℕ × Bool × ℤ)
    → ValidDense a
    → Cut a.values l r
    → Truncated l throw a (cut_at throw a r)
unfolding cut_at get_idx
cut_at-Truncated l throw a (l', true, count) w c = record {
  kept = left-kept l l' true count a w c;
  frozen = left-Frozen l l' true count a w c;
  flag = inl (refl, c.whole refl);
  valid = left-Valid l l' true count a w c;
}
cut_at-Truncated l true a (l', false, count) w c = record {
  kept = left-kept l l' false count a w c;
  frozen = left-Frozen l l' false count a w c;
  flag = inr (refl, (c.stopped refl).0, Stuck-some (slot_at a.values (l' - 1)) (c.stopped refl).1);
  valid = left-Valid l l' false count a w c;
}
cut_at-Truncated l false a (l', false, count) w c = record {
  kept = left-kept l l' false count a w c;
  frozen = left-Frozen l l' false count a w c;
  flag = inr (refl, (c.stopped refl).0, Stuck-some (slot_at a.values (l' - 1)) (c.stopped refl).1);
  valid = left-Valid l l' false count a w c;
}

-- Setting the length of a valid dense array keeps exactly the slots below the length it arrives at
-- and takes away no property that is not configurable. Either that is the length asked for, or the
-- operation is refused and the last index below the new, greater length holds such a property. The
-- array stays valid.
pub truncate_dense-Truncated :
    (l : ℕ) (throw : Bool) (a : DenseArray)
    → ValidDense a
    → Truncated l throw a (truncate l throw a)
unfolding truncate
truncate_dense-Truncated l throw a w = cut_at-Truncated l throw a _ w (Cut-values l a w)
