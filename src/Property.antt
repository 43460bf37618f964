-- ===== src/Property.antt =====
-- Properties and property descriptors (value.go, object.go, proxy.go): the attributes of a
-- `valueProperty`, and `_defineOwnProperty` with its check `isCompatiblePropertyDescriptor`.
-- A slot of an object holds a plain value, which stands for a data property with all attributes
-- set, or a `valueProperty`. A panic with a TypeError is the result `type_error`, with the slot's
-- content at that moment, since `_defineOwnProperty` writes into the existing property.
pub mod Spec
pub mod Refinement
pub mod Invariants
pub mod Errors
pub mod Accessors
mod Examples
use sobek.Base.{
  ℕ, Bool, true, false, not, ◌&&◌, ◌||◌, Option, none, some, if◌then◌else◌, is_some, bool_eq,
}
use sobek.Value.{Value, undefined, object, Objects, object_eq, same_as}

pub data Flag : Type 0 where
  flag_not_set flag_false flag_true : Flag

abbrev pub is_set : Flag → Bool
is_set flag_not_set = false
is_set _ = true

-- `Flag.Bool`
abbrev pub flag_bool : Flag → Bool
flag_bool flag_true = true
flag_bool _ = false

abbrev pub is_flag_true : Flag → Bool
is_flag_true flag_true = true
is_flag_true _ = false

pub record PropertyDescriptor : Type 0 where
  pub value : Option Value
  pub writable : Flag
  pub configurable : Flag
  pub enumerable : Flag
  pub getter : Option Value
  pub setter : Option Value

abbrev pub is_accessor : PropertyDescriptor → Bool
is_accessor p = is_some p.setter || is_some p.getter

abbrev pub is_data : PropertyDescriptor → Bool
is_data p = is_some p.value || is_set p.writable

abbrev pub is_generic : PropertyDescriptor → Bool
is_generic p = not (is_accessor p) && not (is_data p)

pub record ValueProperty : Type 0 where
  pub value : Option Value
  pub writable : Bool
  pub configurable : Bool
  pub enumerable : Bool
  pub accessor : Bool
  pub getter_func : Option ℕ
  pub setter_func : Option ℕ

pub data Slot : Type 0 where
  plain : Value → Slot
  prop : ValueProperty → Slot

abbrev pub is_writable : ValueProperty → Bool
is_writable p = p.writable || is_some p.setter_func

-- `&valueProperty{}`
abbrev pub empty_property : ValueProperty
empty_property = record {
  value = none;
  writable = false;
  configurable = false;
  enumerable = false;
  accessor = false;
  getter_func = none;
  setter_func = none;
}

abbrev pub prop_to_value_prop : Slot → ValueProperty
prop_to_value_prop (prop p) = p
prop_to_value_prop (plain v) = record {
  value = some v;
  writable = true;
  configurable = true;
  enumerable = true;
  accessor = false;
  getter_func = none;
  setter_func = none;
}

-- `valueProperty.get` and `set` read and write the value, or call the function in place.
pub data Access (A : Type 0) : Type 0 where
  done : A → Access A
  calls : ℕ → Access A

unfoldable pub get : ValueProperty → Access Value
get p = elim p.getter_func [
  | some f ↦ calls f
  | none ↦ elim p.value [ some v ↦ done v | none ↦ done undefined ]
]

unfoldable pub set : ValueProperty → Value → Access ValueProperty
set p v = elim p.setter_func [ some f ↦ calls f | none ↦ done (record p { value = some v }) ]

abbrev pub is_undefined : Value → Bool
is_undefined undefined = true
is_undefined _ = false

-- `v.SameAs(f)` for a function pointer `f` that may be nil.
unfoldable pub same_as_func : Objects → Value → Option ℕ → Bool
unfolding object_eq
same_as_func rt (object a) (some f) = object_eq rt a f
same_as_func rt _ _ = false

-- A getter or setter of the descriptor differs from the one in place.
unfoldable pub func_differs : Objects → Option Value → Option ℕ → Bool
unfolding same_as_func
func_differs rt none f = false
func_differs rt (some v) f = not (is_undefined v && not (is_some f)) && not (same_as_func rt v f)

unfoldable pub value_differs : Objects → Option Value → Option Value → Bool
value_differs rt none v = false
value_differs rt (some w) none = true
value_differs rt (some w) (some v) = not (same_as rt w v)

-- The tests that lead to `reject`, of a property that is not configurable.
unfoldable pub redefines : Objects → PropertyDescriptor → ValueProperty → Bool
unfolding func_differs value_differs
redefines rt desc current =
    is_flag_true desc.configurable
    || is_set desc.enumerable && not (bool_eq (flag_bool desc.enumerable) current.enumerable)
    || not (is_generic desc) && not (bool_eq (is_accessor desc) current.accessor)
    || (if current.accessor
        then func_differs rt desc.getter current.getter_func
          || func_differs rt desc.setter current.setter_func
        else not current.writable
          && (is_flag_true desc.writable || value_differs rt desc.value current.value))

pub data Verdict : Type 0 where
  accept reject panic : Verdict

abbrev refuse : Bool → Verdict
refuse throw = if throw then panic else reject

unfoldable pub is_compatible_property_descriptor :
    Objects
    → (extensible : Bool) → PropertyDescriptor
    → Option ValueProperty
    → (throw : Bool) → Verdict
unfolding redefines
is_compatible_property_descriptor rt extensible desc none throw =
    if extensible then accept else refuse throw
is_compatible_property_descriptor rt extensible desc (some current) throw =
    if not current.configurable && redefines rt desc current then refuse throw else accept

-- `propGetter` and `propSetter`: `none` is the panic.
unfoldable pub prop_func : Objects → Value → Option (Option ℕ)
prop_func rt undefined = some none
prop_func rt (object f) = if rt.callable f then some (some f) else none
prop_func rt _ = none

pub data Outcome : Type 0 where
  defined : Slot → Outcome
  rejected : Outcome
  type_error : Option Slot → Outcome

-- What the slot holds once the existing property has been written to.
abbrev pub left_behind : Option Slot → ValueProperty → Option Slot
left_behind (some (prop _)) p = some (prop p)
left_behind e p = e

unfoldable pub write_flags : PropertyDescriptor → ValueProperty → ValueProperty
write_flags d p = record p {
  writable = if is_set d.writable then flag_bool d.writable else p.writable;
  enumerable = if is_set d.enumerable then flag_bool d.enumerable else p.enumerable;
  configurable = if is_set d.configurable then flag_bool d.configurable else p.configurable;
}

unfoldable pub write_value : PropertyDescriptor → ValueProperty → ValueProperty
write_value d p = record p {
  value = if is_some d.value then d.value else p.value;
  getter_func = if is_some d.value then none else p.getter_func;
  setter_func = if is_some d.value then none else p.setter_func;
  accessor = if is_data d then false else p.accessor;
}

unfoldable pub write_getter : ValueProperty → Option ℕ → ValueProperty
write_getter p f = record p { getter_func = f; value = none; accessor = true }

unfoldable pub write_setter : ValueProperty → Option ℕ → ValueProperty
write_setter p f = record p { setter_func = f; value = none; accessor = true }

-- A data property with no value holds `undefined`.
unfoldable pub fill_value : ValueProperty → ValueProperty
fill_value p =
    if not p.accessor && not (is_some p.value) then record p { value = some undefined } else p

unfoldable pub define_setter : Objects → Option Slot → PropertyDescriptor → ValueProperty → Outcome
unfolding write_setter fill_value
define_setter rt existing d p = elim d.setter [
  | none ↦ defined (prop (fill_value p))
  | some v ↦ elim (prop_func rt v) [
    | none ↦ type_error (left_behind existing p)
    | some f ↦ defined (prop (fill_value (write_setter p f)))
  ]
]

unfoldable pub define_getter : Objects → Option Slot → PropertyDescriptor → ValueProperty → Outcome
unfolding write_getter define_setter
define_getter rt existing d p = elim d.getter [
  | none ↦ define_setter rt existing d p
  | some v ↦ elim (prop_func rt v) [
    | none ↦ type_error (left_behind existing p)
    | some f ↦ define_setter rt existing d (write_getter p f)
  ]
]

abbrev pub existing_property : Option Slot → Option ValueProperty
existing_property none = none
existing_property (some s) = some (prop_to_value_prop s)

abbrev pub property_or_empty : Option Slot → ValueProperty
property_or_empty none = empty_property
property_or_empty (some s) = prop_to_value_prop s

-- All four of writable, enumerable, configurable and a value: the slot holds the value itself.
abbrev pub plain_value : PropertyDescriptor → Option Value
plain_value d =
    if is_flag_true d.writable && (is_flag_true d.enumerable && is_flag_true d.configurable)
    then d.value
    else none

unfoldable pub define_fields : Objects → Option Slot → PropertyDescriptor → Outcome
unfolding write_flags write_value define_getter
define_fields rt existing d = elim (plain_value d) [
  | some v ↦ defined (plain v)
  | none ↦ define_getter rt existing d (write_value d (write_flags d (property_or_empty existing)))
]

-- `_defineOwnProperty`
unfoldable pub define_own_property :
    Objects → (extensible : Bool) → Option Slot → PropertyDescriptor → (throw : Bool) → Outcome
unfolding is_compatible_property_descriptor define_fields
define_own_property rt extensible existing d throw =
    elim (is_compatible_property_descriptor rt extensible d (existing_property existing) throw) [
      | accept ↦ define_fields rt existing d
      | reject ↦ rejected
      | panic ↦ type_error existing
    ]
