-- ===== src/Array/Dense/Delete.antt =====
-- `_deleteIdxProp` of a dense array.
use sobek.Base.{
  ℕ, zero, suc, ◌+◌, ◌-◌, ◌≤◌, ◌<◌, Bool, true, false, Option, none, some, ◌≡◌, ◌⊎◌, inl, inr, refl,
  arith, ltb, leb, ◌==◌, if◌then◌else◌, length, length-set, ◌∙◌, sym, Bool-cases,
}
use sobek.Base.Int.{ℤ}
use sobek.Property.{Slot, plain, prop}
use sobek.Array.State.{
  DenseArray, returned, refuse, Covers, Covers-mono, Covers-dec, Frozen, Removable, dec,
}
use sobek.Array.Slots.{
  slot_at, slot_at-set, slot_at-of_ge, slot_count, count_slots, count_slots-set,
}
use sobek.Array.Dense.{get_idx, delete_idx}
use sobek.Array.Own.{ValidDense}

-- The slot with the index is gone, which could be taken away, and the others are as they were.
pub record Deleted (idx : ℕ) (a b : DenseArray) : Type 0 where
  pub slots : (j : ℕ) → get_idx j b ≡ (if idx == j then none else get_idx j a)
  pub length : b.length ≡ a.length
  pub allowed : (u : Slot) → get_idx idx a ≡ some u → Removable u
  pub valid : ValidDense b

emptied-Deleted :
    (idx : ℕ) (n count : ℤ) (u : Slot) (a : DenseArray)
    → ValidDense a
    → slot_at a.values idx ≡ some u
    → ((v : Slot) → u ≡ v → Removable v)
    → Covers count (count_slots (sobek.Base.set a.values idx none))
    → Deleted idx a (record a {
      values = sobek.Base.set a.values idx none;
      obj_count = n;
      prop_value_count = count;
    })
unfolding get_idx
emptied-Deleted idx n count u a w e ok c =
    let lt : idx < length a.values = ground (arith, slot_at-of_ge a.values idx) in
    let len = length-set a.values idx none in
    record {
      slots = λ j. slot_at-set a.values idx j none lt;
      length = refl;
      allowed = λ v k. ok v (ground (arith, e, k));
      valid = record { within = rw len w.within; room = rw len w.room; covers = c };
    }

count_emptied :
    (idx : ℕ) (u : Slot) (a : DenseArray)
    → slot_at a.values idx ≡ some u
    → count_slots (sobek.Base.set a.values idx none) + slot_count (some u) ≡ count_slots a.values
count_emptied idx u a e =
    let lt : idx < length a.values = ground (arith, slot_at-of_ge a.values idx) in
    rw e at (count_slots-set a.values idx none lt) ∙ omega arith

-- On a valid dense array, its counter covering its properties, a deletion either succeeds, where the
-- slot is empty or may be taken away, and leaves it empty and the others as they were; or the slot
-- holds a property that is not configurable, and the deletion is refused and leaves the array as it
-- was.
pub delete_idx_dense_cases :
    (idx : ℕ) (throw : Bool) (a : DenseArray)
    → ValidDense a
    → ((b : DenseArray) × (delete_idx idx throw a ≡ returned true b) × Deleted idx a b)
      ⊎ ((v : Slot) × (get_idx idx a ≡ some v)
          × Frozen v
          × (delete_idx idx throw a ≡ refuse throw a))
unfolding delete_idx get_idx
delete_idx_dense_cases idx throw a w = go (slot_at a.values idx) refl
  where
    go :
        (u : Option Slot)
        → slot_at a.values idx ≡ u
        → ((b : DenseArray) × (delete_idx idx throw a ≡ returned true b) × Deleted idx a b)
          ⊎ ((v : Slot) × (get_idx idx a ≡ some v)
              × Frozen v
              × (delete_idx idx throw a ≡ refuse throw a))
    go none e = inl (
      a,
      ground (arith, e),
      record {
        slots = λ j. ground (arith, e);
        length = refl;
        allowed = λ u k. ground (arith, e, k);
        valid = w;
      },
    )
    go (some (plain x)) e = inl (
      _,
      rw (delete_idx, e) refl,
      emptied-Deleted idx (dec a.obj_count) a.prop_value_count (plain x) a w e
          (λ v k. rw (sym k) tt)
          (Covers-mono a.prop_value_count _ _ (omega (arith, count_emptied idx (plain x) a e))
            w.covers),
    )
    go (some (prop p)) e = elim (Bool-cases p.configurable) [
      | inl y ↦ inl (
        record a {
          values = sobek.Base.set a.values idx none;
          obj_count = dec a.obj_count;
          prop_value_count = dec a.prop_value_count;
        },
        ground (arith, e),
        emptied-Deleted idx (dec a.obj_count) (dec a.prop_value_count) (prop p) a w e
            (λ v k. rw (sym k) y)
            (Covers-dec a.prop_value_count _ (
              Covers-mono a.prop_value_count _ _ (omega (arith, count_emptied idx (prop p) a e))
                w.covers)),
      )
      | inr n ↦ inr (prop p, e, n, ground (arith, e))
    ]
