-- ===== src/Array/Dense.antt =====
-- The dense array's operations (array.go), with `growCap` (runtime.go).
pub mod Switch
pub mod Loss
pub mod Expand
pub mod Set
pub mod Cut
pub mod Length
pub mod Delete
pub mod Define
use mathlib.Core.List.{reverse}
use sobek.Base.{
  ℕ, zero, suc, ◌+◌, ◌-◌, ◌*◌, ◌/◌, Bool, true, false, not, ◌&&◌, ◌||◌, List, [], ◌∷◌, ◌++◌, Option,
  none, some, ltb, leb, ◌==◌, if◌then◌else◌, is_some, length, take, replicate, set as set_elem,
  get_elem?, ◌∙◌,
}
use sobek.Base.Int.{ℤ, pos, int_eq}
use sobek.Value.{Value, Objects}
use sobek.Property.{
  Slot, plain, prop, is_writable, set, done, calls, define_own_property, defined, rejected,
  type_error, PropertyDescriptor,
}
use sobek.Array.Items.{Item, item}
use sobek.Array.State.{
  SparseArray, DenseArray, ArrayObject, sparse, dense, Result, returned, threw, called, setter_call,
  refuse, inc, dec, is_positive, is_prop, to_uint32,
}
use sobek.Array.Slots.{slot_at}
use sobek.Array.Sparse.{add}

-- The loop of `_setLengthInt` over the slots from the last one back; the index of a slot is the
-- number of those before it.
unfoldable pub cut_back : List (Option Slot) → ℕ → ℤ → ℕ × Bool × ℤ
cut_back [] l count = (l, true, count)
cut_back (x ∷ rest) l count =
    let on = cut_back rest l count in
    let down = cut_back rest l (dec count) in
    if ltb (length rest) l then (l, true, count) else elim x [
      | none ↦ on
      | some (plain _) ↦ on
      | some (prop p) ↦ if p.configurable then down else (length rest + 1, false, count)
    ]

-- `_setLengthInt`, once the length is known.
unfoldable pub cut_at : Bool → DenseArray → ℕ × Bool × ℤ → Result DenseArray
cut_at throw a (l, ret, count) =
    let cut = leb l (length a.values) in
    let a' = record a {
      values = if cut then take l a.values else a.values;
      capacity = if cut && (leb 16 l && ltb l (a.capacity / 4)) then l else a.capacity;
      length = l;
      prop_value_count = count;
    } in
    if ret then returned true a' else refuse throw a'

-- `_setLengthInt`
unfoldable pub truncate : ℕ → Bool → DenseArray → Result DenseArray
unfolding cut_back cut_at
truncate l throw a =
    let slow = leb l a.length && is_positive a.prop_value_count in
    cut_at throw a (
      if slow
      then cut_back (reverse a.values) l a.prop_value_count
      else (l, true, a.prop_value_count))

unfoldable pub set_length_int : ℕ → Bool → DenseArray → Result DenseArray
unfolding truncate
set_length_int l throw a =
    if l == a.length
    then returned true a
    else if not a.length_writable
    then refuse throw a
    else truncate l throw a

unfoldable pub set_length : ℕ → Bool → DenseArray → Result DenseArray
unfolding truncate
set_length v throw a = if not a.length_writable then refuse throw a else truncate v throw a

-- `getOwnPropIdx`
unfoldable pub get_idx : ℕ → DenseArray → Option Slot
get_idx idx a = slot_at a.values idx

-- The loop of `growCap`; `fuel` rounds are made at most.
unfoldable pub grow_loop : ℕ → ℕ → ℕ → ℕ
grow_loop zero cap new_size = cap
grow_loop (suc fuel) cap new_size =
    let more = grow_loop fuel (cap + cap / 4) new_size in
    if ltb 0 cap && ltb cap new_size then more else cap

-- `growCap`, for sizes whose capacities do not overflow an `int`.
unfoldable pub grow_cap : (new_size old_size old_cap : ℕ) → ℕ
grow_cap new_size old_size old_cap =
    if ltb (old_cap + old_cap) new_size
    then new_size
    else if ltb old_size 1024
    then old_cap + old_cap
    else (let cap = grow_loop 4 old_cap new_size in if leb cap 0 then new_size else cap)

-- `sparseArrayObject.setValues`, from the slot with index `i` on.
unfoldable pub items_from : ℕ → List (Option Slot) → List Item
items_from i [] = []
items_from i (none ∷ vs) = items_from (i + 1) vs
items_from i (some v ∷ vs) = item i v ∷ items_from (i + 1) vs

unfoldable pub to_sparse : DenseArray → SparseArray
unfolding items_from
to_sparse a = record {
  items = items_from 0 a.values;
  length = a.length;
  prop_value_count = a.prop_value_count;
  length_writable = a.length_writable;
  extensible = a.extensible;
}

-- `expand` switches to the sparse representation for an index past 4096 and past ten times the
-- population, a counter that is not 0 modulo 2 ^ 32 then.
unfoldable pub is_scattered : ℕ → DenseArray → Bool
is_scattered idx a =
    ltb 4096 idx && (int_eq a.obj_count (pos 0) || ltb 10 (idx / to_uint32 a.obj_count))

-- `expand`: the array with room for the index, or `none` for a switch.
unfoldable pub expand : ℕ → DenseArray → Option DenseArray
unfolding is_scattered grow_cap
expand idx a =
    let target = idx + 1 in
    let wide = a.values ++ replicate (target - length a.values) none in
    if leb target (length a.values)
    then some a
    else if ltb target a.capacity
    then some (record a { values = wide })
    else if is_scattered idx a
    then none
    else some (record a { values = wide; capacity = grow_cap target (length a.values) a.capacity })

abbrev pub and_then : Result DenseArray → (DenseArray → Result ArrayObject) → Result ArrayObject
and_then (returned true a) k = k a
and_then (returned false a) k = returned false (dense a)
and_then (threw a) k = threw (dense a)
and_then (called f a) k = called f (dense a)

unfoldable pub reach : ℕ → Bool → DenseArray → Result DenseArray
unfolding set_length_int
reach idx throw a = if leb a.length idx then set_length_int (idx + 1) throw a else returned true a

abbrev pub write : ℕ → Slot → DenseArray → DenseArray
write idx v a = record a { values = set_elem a.values idx (some v) }

unfoldable pub store_new : ℕ → Slot → DenseArray → ArrayObject
unfolding expand to_sparse add
store_new idx v a = elim (expand idx a) [
  | some b ↦ dense (record (write idx v b) { obj_count = inc b.obj_count })
  | none ↦ sparse (add idx v (to_sparse a))
]

-- `_setOwnIdx`
unfoldable pub set_own_idx :
    (idx : ℕ) → Value → (throw : Bool) → (foreign : Option Bool) → DenseArray → Result ArrayObject
unfolding get_idx reach store_new
set_own_idx idx val throw foreign a = elim (get_idx idx a) [
  | some (plain _) ↦ returned true (dense (write idx (plain val) a))
  | some (prop p) ↦ if not (is_writable p) then refuse throw (dense a) else elim (set p val) [
    | done q ↦ returned true (dense (write idx (prop q) a))
    | calls f ↦ called (setter_call f none val) (dense a)
  ]
  | none ↦ elim foreign [
    | some res ↦ returned res (dense a)
    | none ↦
        if not a.extensible
        then refuse throw (dense a)
        else and_then (reach idx throw a) (λ a'. returned true (store_new idx (plain val) a'))
  ]
]

-- The end of `_defineIdxProperty`. The counters are stepped in the dense representation only.
unfoldable pub store_property : ℕ → Slot → DenseArray → ArrayObject
unfolding expand to_sparse add
store_property idx v a = elim (expand idx a) [
  | some b ↦ dense (record (write idx v b) {
    obj_count = inc b.obj_count;
    prop_value_count = if is_prop v then inc b.prop_value_count else b.prop_value_count;
  })
  | none ↦ sparse (add idx v (to_sparse a))
]

abbrev pub after_error : ℕ → Option Slot → DenseArray → DenseArray
after_error idx none a = a
after_error idx (some v) a = write idx v a

-- `_defineIdxProperty`
unfoldable pub define_idx_property :
    Objects → (idx : ℕ) → PropertyDescriptor → (throw : Bool) → DenseArray → Result ArrayObject
unfolding get_idx reach store_property define_own_property
define_idx_property rt idx desc throw a =
    elim (define_own_property rt a.extensible (get_idx idx a) desc throw) [
      | defined v ↦ and_then (reach idx throw a) (λ a'. returned true (store_property idx v a'))
      | rejected ↦ returned false (dense a)
      | type_error left ↦ threw (dense (after_error idx left a))
    ]

-- `_deleteIdxProp`
unfoldable pub delete_idx : (idx : ℕ) → (throw : Bool) → DenseArray → Result DenseArray
unfolding get_idx
delete_idx idx throw a = elim (get_idx idx a) [
  | none ↦ returned true a
  | some (plain _) ↦
      returned true (record a { values = set_elem a.values idx none; obj_count = dec a.obj_count })
  | some (prop p) ↦
      if not p.configurable
      then refuse throw a
      else returned true (record a {
        values = set_elem a.values idx none;
        obj_count = dec a.obj_count;
        prop_value_count = dec a.prop_value_count;
      })
]
