-- ===== src/Object.antt =====
-- Ordinary objects and their prototype chains (object.go, `baseObject`). The store gives each object's
-- content by its number. String names and symbols are numbers, an integer index is its string. Every
-- object of the store is an ordinary one, so that a call through `self` is one of these functions; a
-- call of a getter or a setter is a result. A walk along the prototype chain takes fuel, the rounds
-- that it may make, and has no result without it.
pub mod Chain
pub mod Get
pub mod Assign
pub mod Written
pub mod Defined
pub mod Slots
pub mod Set
pub mod Symbols
pub mod Names
pub mod ReadBack
mod Examples
use sobek.Base.{
  ℕ, zero, suc, Bool, true, false, not, List, [], ◌∷◌, ◌++◌, Option, none, some, ◌==◌,
  if◌then◌else◌, is_some,
}
use sobek.Value.{Value, undefined, object, Objects}
use sobek.Property.{
  Slot, plain, prop, is_writable, ValueProperty, get, set, done, calls, flag_true, flag_not_set,
  PropertyDescriptor, define_own_property, defined, rejected, type_error,
}
use sobek.Array.State.{Result, returned, threw, called, refuse}

-- `prop_names` lists the names of `values` in the order in which they were added; `sym_values` is
-- what `symValues.get` answers.
pub record BaseObject : Type 0 where
  pub prototype : Option ℕ
  pub extensible : Bool
  pub values : ℕ → Option Slot
  pub prop_names : List ℕ
  pub sym_values : ℕ → Option Slot

abbrev pub Store : Type 0
Store = ℕ → BaseObject

abbrev pub write_object : ℕ → BaseObject → Store → Store
write_object o b s a = if a == o then b else s a

abbrev pub update : ℕ → Option Slot → (ℕ → Option Slot) → ℕ → Option Slot
update k v values n = if n == k then v else values n

abbrev pub is_object : Value → ℕ → Bool
is_object (object a) o = a == o
is_object _ o = false

-- `o.values[name] = val`
abbrev pub write_str : ℕ → ℕ → Slot → Store → Store
write_str o name v s =
    write_object o (record (s o) { values = update name (some v) (s o).values }) s

-- The same, and the name is new.
abbrev pub add_str : ℕ → ℕ → Slot → Store → Store
add_str o name v s =
    write_object o
      (record (s o) {
        values = update name (some v) (s o).values;
        prop_names = (s o).prop_names ++ (name ∷ []);
      })
      s

-- The end of `defineOwnPropertyStr`: an existing name keeps its place.
unfoldable pub put : ℕ → ℕ → Slot → Store → Store
put o name v s = if is_some ((s o).values name) then write_str o name v s else add_str o name v s

abbrev pub write_sym : ℕ → ℕ → Option Slot → Store → Store
write_sym o k v s = write_object o (record (s o) { sym_values = update k v (s o).sym_values }) s

-- What reading a property comes to: nothing, a value, or a call of a getter with a receiver.
pub data Got : Type 0 where
  absent : Got
  value : Value → Got
  getter : ℕ → (receiver : ℕ) → Got

unfoldable pub read : Slot → (receiver : ℕ) → Got
unfolding get
read (plain v) receiver = value v
read (prop p) receiver = elim (get p) [ done v ↦ value v | calls f ↦ getter f receiver ]

-- `getStr`; a nil receiver is the object itself.
unfoldable pub get_str : ℕ → Store → (o name receiver : ℕ) → Option Got
unfolding read
get_str zero s o name receiver = none
get_str (suc fuel) s o name receiver = elim ((s o).values name) [
  | some v ↦ some (read v receiver)
  | none ↦ elim (s o).prototype [ none ↦ some absent | some p ↦ get_str fuel s p name receiver ]
]

-- `getSym`, by `getWithOwnProp`
unfoldable pub get_sym : ℕ → Store → (o sym receiver : ℕ) → Option Got
unfolding read
get_sym zero s o sym receiver = none
get_sym (suc fuel) s o sym receiver = elim ((s o).sym_values sym) [
  | some v ↦ some (read v receiver)
  | none ↦ elim (s o).prototype [ none ↦ some absent | some p ↦ get_sym fuel s p sym receiver ]
]

unfoldable pub has_property_str : ℕ → Store → (o name : ℕ) → Option Bool
has_property_str zero s o name = none
has_property_str (suc fuel) s o name =
    let above = has_property_str fuel s in
    if is_some ((s o).values name)
    then some true
    else elim (s o).prototype [ none ↦ some false | some p ↦ above p name ]

-- `nilSafe`
abbrev pub nil_safe : Option Value → Value
nil_safe none = undefined
nil_safe (some v) = v

-- `hasAndGetStr`
unfoldable pub has_and_get_str : ℕ → Store → (o name receiver : ℕ) → Option (Got × Bool)
has_and_get_str zero s o name receiver = none
has_and_get_str (suc fuel) s o name receiver = elim ((s o).values name) [
  | some (prop p) ↦ elim p.getter_func [
    | none ↦ some (value (nil_safe p.value), true)
    | some f ↦ some (getter f receiver, true)
  ]
  | some (plain v) ↦ some (value v, true)
  | none ↦ elim (s o).prototype [
    | none ↦ some (absent, false)
    | some p ↦ has_and_get_str fuel s p name receiver
  ]
]

-- `checkDelete`
abbrev pub check_delete : Slot → Bool
check_delete (plain v) = true
check_delete (prop p) = p.configurable

abbrev pub remove_name : ℕ → List ℕ → List ℕ
remove_name k [] = []
remove_name k (n ∷ ns) = if n == k then ns else n ∷ remove_name k ns

-- `_delete`
abbrev pub erase_str : (o name : ℕ) → Store → Store
erase_str o name s =
    write_object o
      (record (s o) {
        values = update name none (s o).values;
        prop_names = remove_name name (s o).prop_names;
      })
      s

unfoldable pub delete_str : (o name : ℕ) → (throw : Bool) → Store → Result Store
delete_str o name throw s = elim ((s o).values name) [
  | none ↦ returned true s
  | some v ↦ if not (check_delete v) then refuse throw s else returned true (erase_str o name s)
]

unfoldable pub delete_sym : (o sym : ℕ) → (throw : Bool) → Store → Result Store
delete_sym o sym throw s = elim ((s o).sym_values sym) [
  | none ↦ returned true s
  | some v ↦ if not (check_delete v) then refuse throw s else returned true (write_sym o sym none s)
]

-- What `_defineOwnProperty` leaves where it throws: it may have written to the existing property.
abbrev pub after_error : ℕ → ℕ → Option Slot → Store → Store
after_error o name none s = s
after_error o name (some v) s = write_str o name v s

unfoldable pub define_own_property_str :
    Objects → (o name : ℕ) → PropertyDescriptor → (throw : Bool) → Store → Result Store
unfolding put
define_own_property_str rt o name descr throw s =
    elim (define_own_property rt (s o).extensible ((s o).values name) descr throw) [
      | defined v ↦ returned true (put o name v s)
      | rejected ↦ returned false s
      | type_error left ↦ threw (after_error o name left s)
    ]

abbrev pub sym_after_error : ℕ → ℕ → Option Slot → Store → Store
sym_after_error o sym none s = s
sym_after_error o sym (some v) s = write_sym o sym (some v) s

unfoldable pub define_own_property_sym :
    Objects → (o sym : ℕ) → PropertyDescriptor → (throw : Bool) → Store → Result Store
define_own_property_sym rt o sym descr throw s =
    elim (define_own_property rt (s o).extensible ((s o).sym_values sym) descr throw) [
      | defined v ↦ returned true (write_sym o sym (some v) s)
      | rejected ↦ returned false s
      | type_error left ↦ threw (sym_after_error o sym left s)
    ]

unfoldable pub prevent_extensions : ℕ → Store → Store
prevent_extensions o s = write_object o (record (s o) { extensible = false }) s
