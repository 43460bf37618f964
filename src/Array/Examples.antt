-- ===== src/Array/Examples.antt =====
-- Runs of the array operations, and the theorems about them at concrete arrays.
use sobek.Base.{
  member, ℕ, ◌≤◌, true, false, List, [], ◌∷◌, none, some, ◌≡◌, ◌⊎◌, refl, arith, leb, ◌==◌,
  if◌then◌else◌,
}
use sobek.Base.Int.{pos}
use sobek.Value.{Value, int, Objects}
use sobek.Property.{
  flag_true, flag_false, flag_not_set, PropertyDescriptor, ValueProperty, Slot, plain, prop,
  define_own_property, defined,
}
use sobek.Array.Search.{search, search-IsLeast, IsLeast}
use sobek.Array.Items.{Item, item, Sorted, find_idx, rank, value_at, write_at}
use sobek.Array.Items.Rank.{find_idx-rank}
use sobek.Array.State.{
  SparseArray, DenseArray, sparse, dense, returned, refuse, Frozen, succeeds, state,
}
use sobek.Array.Own.{own, ValidDense}
use sobek.Array.Sparse
use sobek.Array.Sparse.Cut.{WellFormed}
use sobek.Array.Sparse.Length.{Truncated, truncate-Truncated}
use sobek.Array.Sparse.Set.{stored, Assigned, set_own_idx-Assigned}
use sobek.Array.Sparse.Delete.{Deleted, delete_idx_cases}
use sobek.Array.Sparse.Define.{define_idx_property-own}
use sobek.Array.Dense
use sobek.Array.Dense.Expand.{le-grow_cap}
use sobek.Array.Dense.Set.{
  Assigned as DenseAssigned, stored as dense_stored, set_own_idx_dense-Assigned,
}
use sobek.Array.Dense.Length.{Truncated as DenseTruncated, truncate_dense-Truncated}
use sobek.Array.Dense.Delete.{Deleted as DenseDeleted, delete_idx_dense_cases}
use sobek.Array.Dense.Define.{define_idx_property_dense-own}
use sobek.Array.LengthProperty.{
  define_array_length, define_array_length-succeeds, define_array_length_fixed,
}
use sobek.Array.LengthProperty.Both.{dense_ops, sparse_ops}
use sobek.Array.Sparse.Keys.{shows, index_keys-lookup}
use sobek.Array.Items.{lookup}
use sobek.Array.Dense.Loss.{define_idx_property-loses}

abbrev objects : Objects
objects = record { equal = λ a b. false; callable = λ f. f == 4 }

abbrev seven : Value
seven = int (pos 7)

abbrev frozen : ValueProperty
frozen = record {
  value = some seven;
  writable = false;
  configurable = false;
  enumerable = true;
  accessor = false;
  getter_func = none;
  setter_func = none;
}

abbrev hidden : ValueProperty
hidden = record frozen { writable = true; configurable = true; enumerable = false }

abbrev freeze : PropertyDescriptor
freeze = record {
  value = some seven;
  writable = flag_false;
  configurable = flag_false;
  enumerable = flag_true;
  getter = none;
  setter = none;
}

abbrev three_items : List Item
three_items = item 2 (plain seven) ∷ item 9 (prop frozen) ∷ item 20 (prop hidden) ∷ []

abbrev scattered : SparseArray
scattered = record {
  items = three_items;
  length = 30;
  prop_value_count = pos 2;
  length_writable = true;
  extensible = true;
}

abbrev short : DenseArray
short = record {
  values = some (plain seven) ∷ none ∷ some (plain seven) ∷ [];
  capacity = 4;
  length = 3;
  obj_count = pos 2;
  prop_value_count = pos 0;
  length_writable = true;
  extensible = true;
}

three_items-Sorted : Sorted three_items
three_items-Sorted = ground arith

scattered-WellFormed : WellFormed scattered
scattered-WellFormed = record {
  sorted = three_items-Sorted;
  within = ground arith;
  covers = ground arith;
}

short-Valid : ValidDense short
short-Valid = record { within = ground arith; room = ground arith; covers = ground arith }

-- The cut to length 5 stops above the item at 9, after dropping the item at 20.
cut_scattered :
    Sparse.truncate 5 false scattered
    ≡ returned false (record scattered {
      items = item 2 (plain seven) ∷ item 9 (prop frozen) ∷ [];
      length = 10;
      prop_value_count = pos 1;
    })
unfolding Sparse.truncate Sparse.cut_back Sparse.cut_at find_idx search
cut_scattered = refl

write_scattered :
    Sparse.set_own_idx 2 (int (pos 8)) true none scattered
    ≡ returned true (
        sparse (record scattered {
          items = item 2 (plain (int (pos 8))) ∷ item 9 (prop frozen) ∷ item 20 (prop hidden) ∷ [];
        }))
unfolding Sparse.set_own_idx value_at find_idx search write_at
write_scattered = refl

write_short :
    Dense.set_own_idx 1 (int (pos 8)) true none short
    ≡ returned true (
        dense (record short {
          values = some (plain seven) ∷ some (plain (int (pos 8))) ∷ some (plain seven) ∷ [];
          obj_count = pos 3;
        }))
unfolding Dense.set_own_idx
write_short = refl

search-IsLeast_example : IsLeast (leb 3) 0 5 (search 5 (leb 3))
search-IsLeast_example = search-IsLeast 5 (leb 3) (λ a b le lt h. ground arith)

find_idx-rank_example : find_idx three_items 9 ≡ rank 9 three_items
find_idx-rank_example = find_idx-rank three_items 9 three_items-Sorted

truncate-Truncated_example : Truncated 5 false scattered (Sparse.truncate 5 false scattered)
truncate-Truncated_example = truncate-Truncated 5 false scattered scattered-WellFormed

set_own_idx-Assigned_example :
    Assigned 2 (stored (Sparse.get_idx 2 scattered) (int (pos 8))) scattered (
      sparse (record scattered {
        items = item 2 (plain (int (pos 8))) ∷ item 9 (prop frozen) ∷ item 20 (prop hidden) ∷ [];
      }))
set_own_idx-Assigned_example =
    set_own_idx-Assigned 2 (int (pos 8)) true scattered scattered-WellFormed write_scattered

delete_idx_cases_example :
    ((b : SparseArray) × (Sparse.delete_idx 9 false scattered ≡ returned true b)
      × Deleted 9 scattered b)
    ⊎ ((v : Slot) × (Sparse.get_idx 9 scattered ≡ some v)
        × Frozen v
        × (Sparse.delete_idx 9 false scattered ≡ refuse false scattered))
delete_idx_cases_example = delete_idx_cases 9 false scattered scattered-WellFormed

freeze-scattered :
    Sparse.define_idx_property objects 2 freeze true scattered
    ≡ returned true (
        sparse (record scattered {
          items = item 2 (prop frozen) ∷ item 9 (prop frozen) ∷ item 20 (prop hidden) ∷ [];
          prop_value_count = pos 3;
        }))
unfolding Sparse.define_idx_property value_at find_idx search write_at
freeze-scattered = refl

-- The second slot of a dense array that holds a property, and its cut to length 0.
abbrev guarded : DenseArray
guarded = record short {
  values = some (plain seven) ∷ some (prop frozen) ∷ some (prop hidden) ∷ [];
  obj_count = pos 3;
  prop_value_count = pos 2;
}

guarded-Valid : ValidDense guarded
guarded-Valid = record { within = ground arith; room = ground arith; covers = ground arith }

cut_guarded :
    Dense.truncate 0 false guarded
    ≡ returned false (record guarded {
      values = some (plain seven) ∷ some (prop frozen) ∷ [];
      length = 2;
      prop_value_count = pos 1;
    })
unfolding Dense.truncate
cut_guarded = refl

freeze-short :
    Dense.define_idx_property objects 0 freeze true short
    ≡ returned true (
        dense (record short {
          values = some (prop frozen) ∷ none ∷ some (plain seven) ∷ [];
          obj_count = pos 3;
          prop_value_count = pos 1;
        }))
unfolding Dense.define_idx_property
freeze-short = refl

truncate_dense-Truncated_example : DenseTruncated 0 false guarded (Dense.truncate 0 false guarded)
truncate_dense-Truncated_example = truncate_dense-Truncated 0 false guarded guarded-Valid

delete_idx_dense_cases_example :
    ((b : DenseArray) × (Dense.delete_idx 1 true guarded ≡ returned true b)
      × DenseDeleted 1 guarded b)
    ⊎ ((v : Slot) × (Dense.get_idx 1 guarded ≡ some v)
        × Frozen v
        × (Dense.delete_idx 1 true guarded ≡ refuse true guarded))
delete_idx_dense_cases_example = delete_idx_dense_cases 1 true guarded guarded-Valid

define_idx_property_dense-own_example :
    (v : Slot) × (define_own_property objects true (Dense.get_idx 0 short) freeze true ≡ defined v)
    × ((j : ℕ)
        → own j (
            dense (record short {
              values = some (prop frozen) ∷ none ∷ some (plain seven) ∷ [];
              obj_count = pos 3;
              prop_value_count = pos 1;
            }))
          ≡ (if 0 == j then some v else Dense.get_idx j short))
define_idx_property_dense-own_example =
    define_idx_property_dense-own objects 0 freeze true short short-Valid freeze-short

abbrev shorten : PropertyDescriptor
shorten = record freeze { configurable = flag_not_set; enumerable = flag_not_set }

shorten-short : succeeds (define_array_length dense_ops (some 1) shorten true short) ≡ true
unfolding define_array_length Dense.set_length
shorten-short = refl

define_array_length-succeeds_example :
    ((state (define_array_length dense_ops (some 1) shorten true short)).length ≡ 1)
    × ((state (define_array_length dense_ops (some 1) shorten true short)).length_writable ≡ false)
define_array_length-succeeds_example =
    define_array_length-succeeds dense_ops (some 1) shorten true short shorten-short

abbrev fixed : SparseArray
fixed = record scattered { length_writable = false }

define_array_length_fixed_example :
    state (define_array_length sparse_ops (some 1) shorten true fixed) ≡ fixed
define_array_length_fixed_example =
    define_array_length_fixed sparse_ops (some 1) shorten true fixed refl

-- The item at 20 is not enumerable.
index_keys-lookup_example :
    member 20 (Sparse.index_keys false three_items) ≡ shows false (lookup 20 three_items)
index_keys-lookup_example = index_keys-lookup false 20 three_items three_items-Sorted

define_idx_property-own_example :
    (v : Slot) × (define_own_property objects true (Sparse.get_idx 2 scattered) freeze true
      ≡ defined v)
    × ((j : ℕ)
        → own j (
            sparse (record scattered {
              items = item 2 (prop frozen) ∷ item 9 (prop frozen) ∷ item 20 (prop hidden) ∷ [];
              prop_value_count = pos 3;
            }))
          ≡ (if 2 == j then some v else Sparse.get_idx j scattered))
define_idx_property-own_example =
    define_idx_property-own objects 2 freeze true scattered scattered-WellFormed freeze-scattered

le-grow_cap_example : 1500 ≤ Dense.grow_cap 1500 1024 1030
le-grow_cap_example = le-grow_cap 1500 1024 1030 (omega arith)

set_own_idx_dense-Assigned_example :
    DenseAssigned 1 (dense_stored (Dense.get_idx 1 short) (int (pos 8))) short (
      dense (record short {
        values = some (plain seven) ∷ some (plain (int (pos 8))) ∷ some (plain seven) ∷ [];
        obj_count = pos 3;
      }))
set_own_idx_dense-Assigned_example =
    set_own_idx_dense-Assigned 1 (int (pos 8)) true short short-Valid write_short

freeze_new : define_own_property objects true none freeze true ≡ defined (prop frozen)
unfolding define_own_property
freeze_new = refl

scattered_short : Dense.is_scattered 5000 short ≡ true
unfolding Dense.is_scattered
scattered_short = refl

define_idx_property-loses_example :
    (b : SparseArray) × (Dense.define_idx_property objects 5000 freeze true short
      ≡ returned true (sparse b))
    × (Sparse.get_idx 5000 b ≡ some (prop frozen))
    × (b.length ≡ 5001)
    × (b.prop_value_count ≡ pos 0)
    × (c : SparseArray) × (Sparse.truncate 0 true b ≡ returned true c)
    × (Sparse.get_idx 5000 c ≡ none)
define_idx_property-loses_example =
    define_idx_property-loses objects 5000 0 freeze true short (prop frozen) refl refl (omega arith)
      (omega arith) (omega arith) scattered_short freeze_new refl (omega arith)
