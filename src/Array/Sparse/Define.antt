-- ===== src/Array/Sparse/Define.antt =====
-- `_defineIdxProperty` of a sparse array: the slot that the definition gives goes to its index.
use sobek.Base.{
  ℕ, Bool, true, Option, none, some, ◌≡◌, inl, inr, refl, arith, ◌==◌, if◌then◌else◌, ◌∙◌, sym,
  Bool-cases,
}
use sobek.Value.{Objects}
use sobek.Property.{
  Slot, PropertyDescriptor, Outcome, define_own_property, defined, rejected, type_error,
}
use sobek.Array.Items.{find_idx, item, insert_at}
use sobek.Array.State.{SparseArray, ArrayObject, returned}
use sobek.Array.Sparse.{
  get_idx, define_idx_property, store_property, write_item, count_prop, is_crowded,
}
use sobek.Array.Sparse.Cut.{WellFormed}
use sobek.Array.Sparse.Switch.{get_idx-lookup, get_idx-items}
use sobek.Array.Sparse.Store.{insert-Sorted, lookup-insert, write_dense-slot}
use sobek.Array.Sparse.Set.{reached, reached-WellFormed, reach_cases, write_item-own}
use sobek.Array.Own.{own}
use sobek.Array.Dense

store_property-own :
    (idx j : ℕ) (v : Slot) (a : SparseArray)
    → WellFormed a
    → own j (store_property (find_idx a.items idx) idx v a)
      ≡ (if idx == j then some v else get_idx j a)
unfolding store_property Dense.get_idx
store_property-own idx j v a w = go (get_idx idx a) refl
  where
    go :
        (u : Option Slot)
        → get_idx idx a ≡ u
        → own j (store_property (find_idx a.items idx) idx v a)
          ≡ (if idx == j then some v else get_idx j a)
    go (some u) e =
        rw (e, store_property)
          (get_idx-items j (count_prop v (write_item (find_idx a.items idx) v a))
              (write_item (find_idx a.items idx) v a) refl
            ∙ write_item-own idx j v a w (rw (sym (get_idx-lookup idx a w.sorted) ∙ e))
            ∙ rw (get_idx-lookup j a w.sorted))
    go none e =
        let missing = sym (get_idx-lookup idx a w.sorted) ∙ e in
        rw (e, store_property)
          (elim (Bool-cases (is_crowded idx a.items)) [
            | inl y ↦ rw (y, get_idx-lookup j a w.sorted) (write_dense-slot idx v a w j)
            | inr no' ↦
                rw (no', get_idx-lookup j a w.sorted)
                  (get_idx-items j _
                      (record a { items = insert_at a.items (find_idx a.items idx) (item idx v) })
                      refl
                    ∙ get_idx-lookup j
                        (record a { items = insert_at a.items (find_idx a.items idx) (item idx v) })
                        (insert-Sorted idx v a w missing)
                    ∙ lookup-insert idx v a w j missing)
          ])

-- On a well-formed sparse array, its counter covering its properties, a definition that succeeds puts the
-- slot that it gives at its index, and leaves all others, also where the array becomes a dense one.
pub define_idx_property-own :
    (rt : Objects) (idx : ℕ) (desc : PropertyDescriptor) (throw : Bool) (a : SparseArray)
    {o : ArrayObject}
    → WellFormed a
    → define_idx_property rt idx desc throw a ≡ returned true o
    → (v : Slot) × (define_own_property rt a.extensible (get_idx idx a) desc throw ≡ defined v)
      × ((j : ℕ) → own j o ≡ (if idx == j then some v else get_idx j a))
unfolding define_idx_property
define_idx_property-own rt idx desc throw a {o} w h =
    go (define_own_property rt a.extensible (get_idx idx a) desc throw) refl
  where
    go :
        (r : Outcome)
        → define_own_property rt a.extensible (get_idx idx a) desc throw ≡ r
        → (v : Slot) × (define_own_property rt a.extensible (get_idx idx a) desc throw ≡ defined v)
          × ((j : ℕ) → own j o ≡ (if idx == j then some v else get_idx j a))
    go rejected e = absurd (ground (arith, e))
    go (type_error left) e = absurd (ground (arith, e))
    go (defined v) e = (
      v,
      e,
      λ j. elim (reach_cases idx throw a w) [
        | inl r ↦
            let q : store_property (find_idx a.items idx) idx v (reached idx a) ≡ o =
              ground (arith, r, e) in
            rw (← q) (
              store_property-own idx j v (reached idx a) (reached-WellFormed idx a w)
              ∙ rw (get_idx-items j (reached idx a) a refl))
        | inr (le, fixed, r) ↦ absurd (ground (arith, r, e))
      ],
    )
