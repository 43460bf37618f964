-- ===== src/Array/Dense/Set.antt =====
-- `_setOwnIdx` of a dense array: what it stores, and that the array stays valid.
use sobek.Base.{
  ℕ, ◌<◌, Bool, true, Option, none, some, ◌≡◌, inl, inr, refl, arith, ◌==◌, if◌then◌else◌, length,
  ◌∙◌, length-set,
}
use sobek.Base.Int.{ℤ}
use sobek.Value.{Value}
use sobek.Property.{Slot, plain, prop, set}
use sobek.Array.Slots.{slot_at, slot_at-set, slot_at-of_ge, count_slots-set}
use sobek.Array.State.{inc, DenseArray, ArrayObject, sparse, dense, returned, is_prop, Covers-mono}
use sobek.Array.Sparse.{add}
use sobek.Array.Sparse.Switch.{get_idx-lookup}
use sobek.Array.Sparse.Store.{lookup-insert, insert-Sorted, insert-WellFormed}
use sobek.Array.Dense.{get_idx, to_sparse, write, store_new, set_own_idx}
use sobek.Array.Dense.Switch.{to_sparse-lookup, to_sparse-WellFormed}
use sobek.Array.Dense.Expand.{Expanded, expand_cases, reached, reach_cases, reached-Valid}
use sobek.Array.Own.{own, IsValid, ValidDense}

-- What an assignment leaves in a slot that no setter guards.
abbrev pub stored : Option Slot → Value → Slot
stored (some (prop p)) v = prop (record p { value = some v })
stored _ v = plain v

-- A record of what a successful assignment did to an array.
pub record Assigned (idx : ℕ) (v : Slot) (a : DenseArray) (o : ArrayObject) : Type 0 where
  pub slots : (j : ℕ) → own j o ≡ (if idx == j then some v else get_idx j a)
  pub valid : IsValid o

slot_lt :
    {v : Slot} (idx : ℕ) (a : DenseArray) → slot_at a.values idx ≡ some v → idx < length a.values
slot_lt idx a e = ground (arith, slot_at-of_ge a.values idx)

-- Writing over a slot of the same kind.
write-Assigned :
    (idx : ℕ) (u v : Slot) (a : DenseArray)
    → ValidDense a
    → slot_at a.values idx ≡ some u
    → is_prop u ≡ is_prop v
    → Assigned idx v a (dense (write idx v a))
unfolding get_idx
write-Assigned idx u v a w e p =
    let lt = slot_lt idx a e in
    let len = length-set a.values idx (some v) in
    record {
      slots = λ j. slot_at-set a.values idx j (some v) lt;
      valid = record {
        within = rw len w.within;
        room = rw len w.room;
        covers =
            Covers-mono a.prop_value_count _ _
              (ground (arith, count_slots-set a.values idx (some v) lt, e, p)) w.covers;
      };
    }

-- Writing a plain value into a slot that was nil.
fill-Assigned :
    (idx : ℕ) (val : Value) (n : ℤ) (a b : DenseArray)
    → ValidDense a
    → slot_at a.values idx ≡ none
    → idx < a.length
    → Expanded idx a b
    → Assigned idx (plain val) a (dense (record (write idx (plain val) b) { obj_count = n }))
unfolding get_idx
fill-Assigned idx val n a b w e lt x =
    let len = length-set b.values idx (some (plain val)) in
    record {
      slots = λ j. slot_at-set b.values idx j (some (plain val)) x.inside ∙ rw (x.slots j);
      valid = record {
        within = rw len (x.within lt);
        room = rw len x.room;
        covers = rw x.counter (
            Covers-mono a.prop_value_count _ _
              (ground (
                arith,
                count_slots-set b.values idx (some (plain val)) x.inside,
                x.slots idx,
                x.count,
                e,
              ))
              w.covers);
      };
    }

add-Assigned :
    (idx : ℕ) (val : Value) (a : DenseArray)
    → ValidDense a
    → slot_at a.values idx ≡ none
    → idx < a.length
    → Assigned idx (plain val) a (sparse (add idx (plain val) (to_sparse a)))
unfolding get_idx add to_sparse
add-Assigned idx val a v e lt =
    let w = to_sparse-WellFormed a v in
    let free = to_sparse-lookup idx a ∙ e in
    record {
      slots = λ j.
          get_idx-lookup j _ (insert-Sorted idx (plain val) (to_sparse a) w free)
          ∙ lookup-insert idx (plain val) (to_sparse a) w j free
          ∙ rw (to_sparse-lookup j a);
      valid = insert-WellFormed idx (plain val) (to_sparse a) w free lt refl;
    }

store_new-Assigned :
    (idx : ℕ) (val : Value) (a : DenseArray)
    → ValidDense a
    → slot_at a.values idx ≡ none
    → idx < a.length
    → Assigned idx (plain val) a (store_new idx (plain val) a)
unfolding store_new
store_new-Assigned idx val a v e lt = elim (expand_cases idx a v) [
  | inl (b, q, x) ↦ rw (store_new, q) (fill-Assigned idx val (inc b.obj_count) a b v e lt x)
  | inr q ↦ rw (store_new, q) (add-Assigned idx val a v e lt)
]

-- An assignment to a valid dense array, its counter covering its properties, that the prototype
-- chain does not handle and that reports success without calling a setter puts the value into the
-- slot with the index and leaves all others, also where the array becomes a sparse one; the array
-- stays valid.
pub set_own_idx_dense-Assigned :
    (idx : ℕ) (val : Value) (throw : Bool) (a : DenseArray) {o : ArrayObject}
    → ValidDense a
    → set_own_idx idx val throw none a ≡ returned true o
    → Assigned idx (stored (get_idx idx a) val) a o
unfolding set_own_idx set get_idx
set_own_idx_dense-Assigned idx val throw a {o} w h = go (get_idx idx a) refl h
  where
    grow :
        slot_at a.values idx ≡ none
        → Assigned idx (plain val) a (store_new idx (plain val) (reached idx a))
    grow e =
        let g =
          store_new-Assigned idx val (reached idx a) (reached-Valid idx a w) e (ground arith) in
        record { slots = g.slots; valid = g.valid }

    go :
        (u : Option Slot)
        → get_idx idx a ≡ u
        → set_own_idx idx val throw none a ≡ returned true o
        → Assigned idx (stored u val) a o
    go (some (plain x)) e k =
        let q : dense (write idx (plain val) a) ≡ o = ground arith in
        rw (← q) (write-Assigned idx (plain x) (plain val) a w e refl)
    go (some (prop p)) e k =
        let v = prop (record p { value = some val }) in
        let q : dense (write idx v a) ≡ o = ground arith in
        rw (← q) (write-Assigned idx (prop p) v a w e refl)
    go none e k = elim (reach_cases idx throw a w) [
      | inl r ↦
          let q : store_new idx (plain val) (reached idx a) ≡ o = ground (arith, r) in
          rw (← q) (grow e)
      | inr (le, fixed, r) ↦ absurd (ground (arith, r))
    ]
