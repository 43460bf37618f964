-- ===== src/Array/Dense/Loss.antt =====
-- A property that is defined by a switch to the sparse representation is not counted.
use sobek.Base.{take, ℕ, ◌+◌, ◌≤◌, Bool, true, List, none, some, ◌≡◌, arith, length, ◌∙◌}
use sobek.Base.Int.{pos}
use sobek.Value.{Objects}
use sobek.Property.{Slot, PropertyDescriptor, define_own_property, defined}
use sobek.Array.State.{SparseArray, DenseArray, sparse, returned, Frozen}
use sobek.Array.Slots.{slot_at-of_ge}
use sobek.Array.Items.{Item, lookup, find_idx, Sorted}
use sobek.Array.Items.Change.{take-Sorted, lookup-take}
use sobek.Array.Items.Rank.{find_idx-rank}
use sobek.Array.Items.Insert.{place, insert_at-rank, lookup-place, place-Sorted}
use sobek.Array.Sparse.{add, get_idx, cut_at}
use sobek.Array.Sparse as Sparse
use sobek.Array.Dense.{
  define_idx_property, is_scattered, to_sparse, expand, reach, store_property, set_length_int,
  truncate, cut_at as dense_cut_at,
}
use sobek.Array.Dense as Dense
use sobek.Array.Dense.Switch.{to_sparse-lookup, items_from-Sorted}
use sobek.Array.Sparse.Switch.{get_idx-lookup}

-- The array that the definition leaves.
left_behind : ℕ → Slot → DenseArray → SparseArray
left_behind idx v a = add idx v (to_sparse (record a { length = idx + 1 }))

cut_below : ℕ → SparseArray → SparseArray
cut_below l b = record b { items = take (find_idx b.items l) b.items; length = l }

reach_grow :
    (idx : ℕ) (throw : Bool) (a : DenseArray)
    → a.length_writable ≡ true
    → a.length ≤ idx
    → length a.values ≤ a.length
    → reach idx throw a ≡ returned true (record a { length = idx + 1 })
unfolding reach set_length_int truncate dense_cut_at
reach_grow idx throw a w le v = ground arith

-- Where the definition leaves a sparse array.
define_idx_property-sparse :
    (rt : Objects) (idx : ℕ) (desc : PropertyDescriptor) (throw : Bool) (a : DenseArray) (v : Slot)
    → a.length_writable ≡ true
    → a.length ≤ idx
    → length a.values ≤ a.length
    → a.capacity ≤ idx + 1
    → is_scattered idx a ≡ true
    → define_own_property rt a.extensible none desc throw ≡ defined v
    → define_idx_property rt idx desc throw a ≡ returned true (sparse (left_behind idx v a))
unfolding define_idx_property expand left_behind store_property Dense.get_idx is_scattered
define_idx_property-sparse rt idx desc throw a v w out within room far e =
    ground (arith, slot_at-of_ge a.values idx (omega arith), reach_grow idx throw a w out within)

module _ (idx l : ℕ) (v : Slot) (a : DenseArray) (out : length a.values ≤ idx) where
  missing : lookup idx (to_sparse (record a { length = idx + 1 })).items ≡ none
  missing = to_sparse-lookup idx (record a { length = idx + 1 }) ∙ slot_at-of_ge a.values idx out

  before : List Item
  before = (to_sparse (record a { length = idx + 1 })).items

  before-Sorted : Sorted before
  unfolding before to_sparse
  before-Sorted = items_from-Sorted 0 a.values

  left_items : (left_behind idx v a).items ≡ place idx v before
  unfolding left_behind add before
  left_items = rw (find_idx-rank before idx before-Sorted) (insert_at-rank idx v before)

  left-Sorted : Sorted (left_behind idx v a).items
  unfolding before
  left-Sorted = rw left_items (place-Sorted idx v before missing before-Sorted)

  left_slot : get_idx idx (left_behind idx v a) ≡ some v
  unfolding before
  left_slot =
      get_idx-lookup idx (left_behind idx v a) left-Sorted
      ∙ rw left_items (lookup-place idx idx v before missing ∙ ground arith)

  cut_slot : l ≤ idx → get_idx idx (cut_below l (left_behind idx v a)) ≡ none
  unfolding cut_below
  cut_slot le =
      let b = left_behind idx v a in
      let e = find_idx-rank b.items l left-Sorted in
      get_idx-lookup idx (cut_below l b) (take-Sorted (find_idx b.items l) b.items left-Sorted)
      ∙ rw e (lookup-take l idx b.items left-Sorted ∙ ground arith)

cut_succeeds :
    (l : ℕ) (throw : Bool) (b : SparseArray)
    → b.prop_value_count ≡ pos 0
    → Sparse.truncate l throw b ≡ returned true (cut_below l b)
unfolding Sparse.truncate cut_at cut_below
cut_succeeds l throw b e = ground arith

-- On a dense array whose length is writable and whose count of properties is 0, a definition of a
-- property that is not configurable, at a scattered index past the end and the capacity, makes the
-- array sparse: the property is stored and the length set, but the count stays 0, so a cut to a
-- length at or below the index succeeds and takes the property away.
pub define_idx_property-loses :
    (rt : Objects) (idx l : ℕ) (desc : PropertyDescriptor) (throw : Bool) (a : DenseArray)
    (v : Slot)
    → a.prop_value_count ≡ pos 0
    → a.length_writable ≡ true
    → a.length ≤ idx
    → length a.values ≤ a.length
    → a.capacity ≤ idx + 1
    → is_scattered idx a ≡ true
    → define_own_property rt a.extensible none desc throw ≡ defined v
    → Frozen v
    → l ≤ idx
    → (b : SparseArray) × (define_idx_property rt idx desc throw a ≡ returned true (sparse b))
      × (get_idx idx b ≡ some v)
      × (b.length ≡ idx + 1)
      × (b.prop_value_count ≡ pos 0)
      × (c : SparseArray) × (Sparse.truncate l throw b ≡ returned true c)
      × (get_idx idx c ≡ none)
define_idx_property-loses rt idx l desc throw a v count writable out within room far e f le = (
  left_behind idx v a,
  define_idx_property-sparse rt idx desc throw a v writable out within room far e,
  left_slot idx l v a (omega arith),
  unfold left_behind to_sparse add in λ i. idx + 1,
  unfold left_behind to_sparse add in count,
  cut_below l (left_behind idx v a),
  cut_succeeds l throw (left_behind idx v a) (unfold left_behind to_sparse add in count),
  cut_slot idx l v a (omega arith) le,
)
