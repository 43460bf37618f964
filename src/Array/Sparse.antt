-- ===== src/Array/Sparse.antt =====
-- The sparse array's operations (array_sparse.go). Those on names and on indexes that are no array
-- indexes go on to the base object and are not shown. What the prototype's `setForeignIdx` answers
-- is an argument of `set_own_idx`; it is taken to leave this array alone.
pub mod Cut
pub mod Switch
pub mod Store
pub mod Set
pub mod Delete
pub mod Define
pub mod Length
pub mod Keys
use mathlib.Core.List.{reverse}
use sobek.Base.{
  ℕ, zero, suc, ◌+◌, ◌-◌, ◌*◌, ◌/◌, Bool, true, false, not, ◌&&◌, List, [], ◌∷◌, ◌++◌, Option, none,
  some, ltb, leb, ◌==◌, if◌then◌else◌, is_some, length, take, replicate, ◌||◌, set as set_elem, ◌∙◌,
}
use sobek.Base.Int.{ℤ, pos}
use sobek.Value.{Value, Objects}
use sobek.Property.{
  Slot, plain, prop, is_writable, set, done, calls, define_own_property, defined, rejected,
  type_error, PropertyDescriptor,
}
use sobek.Array.Items.{Item, item, idx_at, find_idx, value_at, insert_at, remove_at, write_at}
use sobek.Array.Slots.Fill.{fill_values}
use sobek.Array.State.{
  SparseArray, DenseArray, ArrayObject, sparse, dense, Result, returned, threw, called, setter_call,
  refuse, inc, dec, is_positive, is_prop, map_result,
}

-- The loop of `_setLengthInt` from the last item back: the length, whether it is the one asked for,
-- and the counter.
unfoldable pub cut_back : List Item → ℕ → ℤ → ℕ × Bool × ℤ
cut_back [] l count = (l, true, count)
cut_back (x ∷ rest) l count =
    let on = cut_back rest l count in
    let down = cut_back rest l (dec count) in
    if ltb x.idx l then (l, true, count) else elim x.value [
      | plain _ ↦ on
      | prop p ↦ if p.configurable then down else (x.idx + 1, false, count)
    ]

-- `_setLengthInt`, once the length is known.
unfoldable pub cut_at : Bool → SparseArray → ℕ × Bool × ℤ → Result SparseArray
cut_at throw a (l, ret, count) =
    let a' = record a {
      items = take (find_idx a.items l) a.items;
      length = l;
      prop_value_count = count;
    } in
    if ret then returned true a' else refuse throw a'

-- `_setLengthInt`
unfoldable pub truncate : ℕ → Bool → SparseArray → Result SparseArray
unfolding cut_back cut_at
truncate l throw a =
    let slow = leb l a.length && is_positive a.prop_value_count in
    cut_at throw a (
      if slow
      then cut_back (reverse a.items) l a.prop_value_count
      else (l, true, a.prop_value_count))

unfoldable pub set_length_int : ℕ → Bool → SparseArray → Result SparseArray
set_length_int l throw a =
    if l == a.length
    then returned true a
    else if not a.length_writable
    then refuse throw a
    else truncate l throw a

unfoldable pub set_length : ℕ → Bool → SparseArray → Result SparseArray
set_length v throw a = if not a.length_writable then refuse throw a else truncate v throw a

-- `_getIdx`
unfoldable pub get_idx : ℕ → SparseArray → Option Slot
get_idx idx a = value_at a.items (find_idx a.items idx) idx

-- `add`
unfoldable pub add : ℕ → Slot → SparseArray → SparseArray
add idx v a = record a { items = insert_at a.items (find_idx a.items idx) (item idx v) }

-- The index of the last item.
abbrev pub last_idx : List Item → ℕ
last_idx xs = idx_at xs (length xs - 1)

-- `expand` switches to the dense representation at 1024 items, an eighth of the indexes or more.
unfoldable pub is_crowded : ℕ → List Item → Bool
is_crowded idx items =
    leb 1024 (length items)
    && ltb ((if ltb idx (last_idx items) then last_idx items else idx) / 8) (length items)

unfoldable pub to_dense : ℕ → SparseArray → DenseArray
to_dense idx a =
    let max_idx = if ltb idx (last_idx a.items) then last_idx a.items else idx in
    record {
      values = fill_values a.items (replicate (max_idx + 1) none);
      capacity = max_idx + 1;
      length = a.length;
      obj_count = pos (length a.items);
      prop_value_count = a.prop_value_count;
      length_writable = a.length_writable;
      extensible = a.extensible;
    }

abbrev pub write_dense : ℕ → Slot → DenseArray → DenseArray
write_dense idx v d = record d { values = set_elem d.values idx (some v) }

-- Goes on with the array once its length is set.
abbrev pub and_then : Result SparseArray → (SparseArray → Result ArrayObject) → Result ArrayObject
and_then (returned true a) k = k a
and_then (returned false a) k = returned false (sparse a)
and_then (threw a) k = threw (sparse a)
and_then (called f a) k = called f (sparse a)

unfoldable pub reach : ℕ → Bool → SparseArray → Result SparseArray
unfolding set_length_int
reach idx throw a = if leb a.length idx then set_length_int (idx + 1) throw a else returned true a

-- A new item at position `i`, or the same in the dense representation.
unfoldable pub store_new : ℕ → ℕ → Slot → SparseArray → ArrayObject
unfolding is_crowded insert_at to_dense
store_new i idx v a =
    if is_crowded idx a.items
    then (let d = write_dense idx v (to_dense idx a) in
        dense (record d { obj_count = inc d.obj_count }))
    else sparse (record a { items = insert_at a.items i (item idx v) })

abbrev pub write_item : ℕ → Slot → SparseArray → SparseArray
write_item i v a = record a { items = write_at a.items i v }

-- `_setOwnIdx`
unfoldable pub set_own_idx :
    (idx : ℕ) → Value → (throw : Bool) → (foreign : Option Bool) → SparseArray → Result ArrayObject
unfolding get_idx reach store_new
set_own_idx idx val throw foreign a =
    let i = find_idx a.items idx in
    elim (get_idx idx a) [
      | some (plain _) ↦ returned true (sparse (write_item i (plain val) a))
      | some (prop p) ↦ if not (is_writable p) then refuse throw (sparse a) else elim (set p val) [
        | done q ↦ returned true (sparse (write_item i (prop q) a))
        | calls f ↦ called (setter_call f none val) (sparse a)
      ]
      | none ↦ elim foreign [
        | some res ↦ returned res (sparse a)
        | none ↦
            if not a.extensible
            then refuse throw (sparse a)
            else and_then (reach idx throw a) (λ a'. returned true (store_new i idx (plain val) a'))
      ]
    ]

abbrev pub count_prop : Slot → SparseArray → SparseArray
count_prop v a = record a {
  prop_value_count = if is_prop v then inc a.prop_value_count else a.prop_value_count;
}

-- The end of `_defineIdxProperty`. After a switch the counter of the abandoned object is stepped.
unfoldable pub store_property : ℕ → ℕ → Slot → SparseArray → ArrayObject
store_property i idx v a = elim (get_idx idx a) [
  | some _ ↦ sparse (count_prop v (write_item i v a))
  | none ↦
      if is_crowded idx a.items
      then dense (write_dense idx v (to_dense idx a))
      else sparse (
          count_prop v (record a {
            items = insert_at a.items i (item idx v);
            length = if leb a.length idx then idx + 1 else a.length;
          }))
]

abbrev pub after_error : ℕ → Option Slot → SparseArray → SparseArray
after_error i none a = a
after_error i (some v) a = write_item i v a

-- `_defineIdxProperty`
unfoldable pub define_idx_property :
    Objects → (idx : ℕ) → PropertyDescriptor → (throw : Bool) → SparseArray → Result ArrayObject
unfolding get_idx reach store_property define_own_property
define_idx_property rt idx desc throw a =
    let i = find_idx a.items idx in
    elim (define_own_property rt a.extensible (get_idx idx a) desc throw) [
      | defined v ↦ and_then (reach idx throw a) (λ a'. returned true (store_property i idx v a'))
      | rejected ↦ returned false (sparse a)
      | type_error left ↦ threw (sparse (after_error i left a))
    ]

-- `_deleteIdxProp`
unfoldable pub delete_idx : (idx : ℕ) → (throw : Bool) → SparseArray → Result SparseArray
unfolding get_idx remove_at
delete_idx idx throw a =
    let i = find_idx a.items idx in
    elim (get_idx idx a) [
      | none ↦ returned true a
      | some (plain _) ↦ returned true (record a { items = remove_at a.items i })
      | some (prop p) ↦
          if not p.configurable
          then refuse throw a
          else returned true
              (record a { items = remove_at a.items i; prop_value_count = dec a.prop_value_count })
    ]

-- `hasOwnPropertyIdx`
unfoldable pub has_own_idx : ℕ → SparseArray → Bool
unfolding get_idx
has_own_idx idx a = is_some (get_idx idx a)

unfoldable pub sort_len : SparseArray → ℕ
sort_len a = if ltb 0 (length a.items) then last_idx a.items + 1 else 0

abbrev pub is_enumerable : Slot → Bool
is_enumerable (plain v) = true
is_enumerable (prop p) = p.enumerable

-- The indexes among the `stringKeys`, before they are written in decimal.
unfoldable pub index_keys : (all : Bool) → List Item → List ℕ
index_keys all [] = []
index_keys all (x ∷ xs) =
    let rest = index_keys all xs in if all || is_enumerable x.value then x.idx ∷ rest else rest
