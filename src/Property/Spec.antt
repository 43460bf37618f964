-- ===== src/Property/Spec.antt =====
-- Properties as ECMAScript describes them: what a slot stands for, as `valuePropToDescriptorObject`
-- (builtin_object.go) reports it, and the outcome that ValidateAndApplyPropertyDescriptor
-- prescribes (ECMA-262, 10.1.6.3).
use sobek.Base.{ℕ, Bool, true, false, Option, none, some, ◌≡◌, ◌≢◌, if◌then◌else◌, ◌&&◌}
use sobek.Value.{Value, undefined, object}
use sobek.Property.{
  Flag, flag_not_set, flag_false, flag_true, PropertyDescriptor, is_accessor, is_data,
  ValueProperty, Slot, plain, prop,
}

pub data Property : Type 0 where
  data_property : Value → (writable enumerable configurable : Bool) → Property
  accessor_property : (get set : Option ℕ) → (enumerable configurable : Bool) → Property

abbrev pub value_or_undefined : Option Value → Value
value_or_undefined none = undefined
value_or_undefined (some v) = v

-- The descriptor that `Object.getOwnPropertyDescriptor` reports.
unfoldable pub reported : Slot → Property
reported (plain v) = data_property v true true true
reported (prop p) =
    if p.accessor
    then accessor_property p.getter_func p.setter_func p.enumerable p.configurable
    else data_property (value_or_undefined p.value) p.writable p.enumerable p.configurable

abbrev pub flag_or : Flag → Bool → Bool
flag_or flag_not_set b = b
flag_or flag_false b = false
flag_or flag_true b = true

abbrev pub value_or : Option Value → Value → Value
value_or none v = v
value_or (some w) v = w

-- The function of a descriptor's `get` or `set` field; `undefined` stands for none.
abbrev pub func_or : Option Value → Option ℕ → Option ℕ
func_or none f = f
func_or (some (object f)) g = some f
func_or (some _) g = none

-- A property made anew: each absent field has its default.
abbrev pub create : PropertyDescriptor → (enumerable configurable : Bool) → Property
create d e c =
    if is_accessor d
    then accessor_property (func_or d.getter none) (func_or d.setter none) (flag_or d.enumerable e)
        (flag_or d.configurable c)
    else data_property (value_or d.value undefined) (flag_or d.writable false)
        (flag_or d.enumerable e) (flag_or d.configurable c)

-- The fields present replace those of the property; a change of kind makes it anew, except that
-- `enumerable` and `configurable` stay where absent.
unfoldable pub apply : Option Property → PropertyDescriptor → Property
apply none d = create d false false
apply (some (data_property v w e c)) d =
    if is_accessor d
    then create d e c
    else data_property (value_or d.value v) (flag_or d.writable w) (flag_or d.enumerable e)
        (flag_or d.configurable c)
apply (some (accessor_property g s e c)) d =
    if is_data d
    then create d e c
    else accessor_property (func_or d.getter g) (func_or d.setter s) (flag_or d.enumerable e)
        (flag_or d.configurable c)

abbrev pub reported? : Option Slot → Option Property
reported? none = none
reported? (some s) = some (reported s)

-- A descriptor that `toPropertyDescriptor` lets through: not both of a data and an accessor one.
abbrev pub IsWellFormed : PropertyDescriptor → Type 0
IsWellFormed d = (is_accessor d && is_data d) ≡ false

-- A property record holds the fields of its own kind only.
pub record IsClean (p : ValueProperty) : Type 0 where
  pub accessor_writable : p.accessor ≡ true → p.writable ≡ false
  pub data_getter : p.accessor ≡ false → p.getter_func ≡ none
  pub data_setter : p.accessor ≡ false → p.setter_func ≡ none
  pub data_value : p.accessor ≡ false → p.value ≢ none
  pub accessor_value : p.accessor ≡ true → p.value ≡ none

abbrev pub CleanSlot : Option Slot → Type 0
CleanSlot none = Unit
CleanSlot (some (plain v)) = Unit
CleanSlot (some (prop p)) = IsClean p
