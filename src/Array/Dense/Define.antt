-- ===== src/Array/Dense/Define.antt =====
-- `_defineIdxProperty` of a dense array: where it puts the slot that it defines.
use sobek.Base.{ℕ, Bool, true, none, some, ◌≡◌, inl, inr, refl, arith, ◌==◌, if◌then◌else◌, ◌∙◌}
use sobek.Value.{Objects}
use sobek.Property.{
  Slot, PropertyDescriptor, Outcome, define_own_property, defined, rejected, type_error,
}
use sobek.Array.Slots.{slot_at, slot_at-set, slot_at-of_ge}
use sobek.Array.State.{DenseArray, ArrayObject, returned}
use sobek.Array.Sparse.{add}
use sobek.Array.Sparse.Switch.{get_idx-lookup}
use sobek.Array.Sparse.Store.{lookup-insert, insert-Sorted}
use sobek.Array.Dense.{get_idx, to_sparse, expand, store_property, define_idx_property}
use sobek.Array.Dense.Switch.{to_sparse-lookup, to_sparse-WellFormed}
use sobek.Array.Dense.Expand.{expand_cases, reached, reach_cases, reached-Valid}
use sobek.Array.Own.{own, ValidDense}

-- An array without room for an index has no slot there.
expand-none : (idx : ℕ) (a : DenseArray) → expand idx a ≡ none → slot_at a.values idx ≡ none
unfolding expand
expand-none idx a e = slot_at-of_ge a.values idx (ground arith)

store_property-own :
    (idx j : ℕ) (v : Slot) (a : DenseArray)
    → ValidDense a
    → own j (store_property idx v a) ≡ (if idx == j then some v else get_idx j a)
unfolding store_property get_idx add
store_property-own idx j v a w = elim (expand_cases idx a w) [
  | inl (b, q, x) ↦
      rw (store_property, q) (slot_at-set b.values idx j (some v) x.inside ∙ rw (x.slots j) refl)
  | inr q ↦
      let f = to_sparse-WellFormed a w in
      let free = to_sparse-lookup idx a ∙ expand-none idx a q in
      rw (store_property, q)
        (get_idx-lookup j _ (insert-Sorted idx v (to_sparse a) f free)
          ∙ lookup-insert idx v (to_sparse a) f j free
          ∙ rw (to_sparse-lookup j a))
]

get_idx-reached : (j idx : ℕ) (a : DenseArray) → get_idx j (reached idx a) ≡ get_idx j a
unfolding get_idx
get_idx-reached j idx a = refl

-- On a valid dense array, its counter covering its properties, a definition that succeeds puts the
-- slot that it gives at its index, and leaves all others, also where the array becomes a sparse one.
pub define_idx_property_dense-own :
    (rt : Objects) (idx : ℕ) (desc : PropertyDescriptor) (throw : Bool) (a : DenseArray)
    {o : ArrayObject}
    → ValidDense a
    → define_idx_property rt idx desc throw a ≡ returned true o
    → (v : Slot) × (define_own_property rt a.extensible (get_idx idx a) desc throw ≡ defined v)
      × ((j : ℕ) → own j o ≡ (if idx == j then some v else get_idx j a))
unfolding define_idx_property
define_idx_property_dense-own rt idx desc throw a {o} w h =
    go (define_own_property rt a.extensible (get_idx idx a) desc throw) refl
  where
    go :
        (r : Outcome)
        → define_own_property rt a.extensible (get_idx idx a) desc throw ≡ r
        → (v : Slot) × (define_own_property rt a.extensible (get_idx idx a) desc throw ≡ defined v)
          × ((j : ℕ) → own j o ≡ (if idx == j then some v else get_idx j a))
    go rejected e = absurd (ground (arith, e))
    go (type_error left) e = absurd (ground (arith, e))
    go (defined v) e = (
      v,
      e,
      λ j. elim (reach_cases idx throw a w) [
        | inl r ↦
            let q : store_property idx v (reached idx a) ≡ o = ground (arith, r, e) in
            rw (← q) (
              store_property-own idx j v (reached idx a) (reached-Valid idx a w)
              ∙ rw (get_idx-reached j idx a) refl)
        | inr (le, fixed, r) ↦ absurd (ground (arith, r, e))
      ],
    )
