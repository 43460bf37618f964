-- ===== src/Array/Sparse/Delete.antt =====
-- `_deleteIdxProp` of a sparse array.
use sobek.Base.{
  ℕ, ◌+◌, Bool, true, Option, none, some, ◌≡◌, refl, arith, ◌==◌, if◌then◌else◌, ◌∙◌, sym, ◌⊎◌, inl,
  Bool-cases, inr,
}
use sobek.Property.{Slot, plain, prop}
use sobek.Array.Items.{Sorted, lookup, find_idx, remove_at}
use sobek.Array.Items.Rank.{find_idx-rank}
use sobek.Array.Items.Change.{lookup-remove_at, remove_at-Sorted}
use sobek.Array.Items.Bounds.{within-remove_at, count_props-remove_at}
use sobek.Array.Items.Count.{count_props}
use sobek.Array.State.{
  SparseArray, returned, refuse, dec, is_prop, Covers, Covers-mono, Covers-dec, Frozen, Removable,
}
use sobek.Array.Sparse.{get_idx, delete_idx}
use sobek.Array.Sparse.Cut.{WellFormed}
use sobek.Array.Sparse.Switch.{get_idx-lookup}
use sobek.Base.Int.{ℤ}

-- The slot with the index is gone, which could be taken away, and the others are as they were.
pub record Deleted (idx : ℕ) (a b : SparseArray) : Type 0 where
  pub slots : (j : ℕ) → get_idx j b ≡ (if idx == j then none else get_idx j a)
  pub length : b.length ≡ a.length
  pub allowed : (u : Slot) → get_idx idx a ≡ some u → Removable u
  pub valid : WellFormed b

module _ (idx : ℕ) (a : SparseArray) (w : WellFormed a) (u : Slot)
    (e : get_idx idx a ≡ some u) where
  found : lookup idx a.items ≡ some u
  found = sym (get_idx-lookup idx a w.sorted) ∙ e

  removed-Deleted :
      (count : ℤ)
      → ((v : Slot) → u ≡ v → Removable v)
      → Covers count (count_props (remove_at a.items (find_idx a.items idx)))
      → Deleted idx a
          (record a { items = remove_at a.items (find_idx a.items idx); prop_value_count = count })
  removed-Deleted count ok c =
      let b = record a {
        items = remove_at a.items (find_idx a.items idx);
        prop_value_count = count;
      } in
      let sorted' : Sorted (remove_at a.items (find_idx a.items idx)) =
        rw (find_idx-rank a.items idx w.sorted) (remove_at-Sorted idx a.items w.sorted) in
      record {
        slots = λ j.
            get_idx-lookup j b sorted'
            ∙ rw (find_idx-rank a.items idx w.sorted) (
                lookup-remove_at idx j a.items w.sorted (rw found)
                ∙ rw (get_idx-lookup j a w.sorted));
        length = refl;
        allowed = λ v k. ok v (ground (arith, e, k));
        valid = record {
          sorted = sorted';
          within =
              rw (find_idx-rank a.items idx w.sorted)
                (within-remove_at a.length idx a.items w.within);
          covers = c;
        };
      }

  count_removed :
      count_props (remove_at a.items (find_idx a.items idx)) + (if is_prop u then 1 else 0)
      ≡ count_props a.items
  count_removed =
      rw (find_idx-rank a.items idx w.sorted) (count_props-remove_at idx u a.items found w.sorted)

-- On a well-formed sparse array, its counter covering its properties, a deletion either succeeds, where the
-- slot is empty or may be taken away, and leaves it empty and the others as they were; or the slot
-- holds a property that is not configurable, and the deletion is refused and leaves the array as it
-- was.
pub delete_idx_cases :
    (idx : ℕ) (throw : Bool) (a : SparseArray)
    → WellFormed a
    → ((b : SparseArray) × (delete_idx idx throw a ≡ returned true b) × Deleted idx a b)
      ⊎ ((v : Slot) × (get_idx idx a ≡ some v)
          × Frozen v
          × (delete_idx idx throw a ≡ refuse throw a))
unfolding delete_idx
delete_idx_cases idx throw a w = go (get_idx idx a) refl
  where
    go :
        (u : Option Slot)
        → get_idx idx a ≡ u
        → ((b : SparseArray) × (delete_idx idx throw a ≡ returned true b) × Deleted idx a b)
          ⊎ ((v : Slot) × (get_idx idx a ≡ some v)
              × Frozen v
              × (delete_idx idx throw a ≡ refuse throw a))
    go none e = inl (
      a,
      rw (e, delete_idx),
      record {
        slots = λ j. ground (arith, e);
        length = refl;
        allowed = λ u k. ground (arith, e, k);
        valid = w;
      },
    )
    go (some (plain x)) e = inl (
      record a { items = remove_at a.items (find_idx a.items idx) },
      rw (e, delete_idx),
      removed-Deleted idx a w (plain x) e a.prop_value_count (λ v k. rw (sym k) tt)
          (Covers-mono a.prop_value_count _ (count_props a.items)
            (omega (arith, count_removed idx a w (plain x) e)) w.covers),
    )
    go (some (prop p)) e = elim (Bool-cases p.configurable) [
      | inl y ↦ inl (
        record a {
          items = remove_at a.items (find_idx a.items idx);
          prop_value_count = dec a.prop_value_count;
        },
        ground (arith, e),
        removed-Deleted idx a w (prop p) e (dec a.prop_value_count) (λ v k. rw (sym k) y)
            (Covers-dec a.prop_value_count _ (
              Covers-mono a.prop_value_count _ (count_props a.items)
                (omega (arith, count_removed idx a w (prop p) e)) w.covers)),
      )
      | inr n ↦ inr (prop p, e, n, ground (arith, e))
    ]
