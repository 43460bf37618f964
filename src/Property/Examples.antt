-- ===== src/Property/Examples.antt =====
-- Runs of `_defineOwnProperty`, and the theorems about it at concrete properties.
use sobek.Base.{true, false, none, some, ◌≡◌, ◌≢◌, ◌⊎◌, inr, refl, arith, ◌==◌}
use sobek.Base.Int.{pos}
use sobek.Value.{Value, int, object, Objects, same_as}
use sobek.Property.{
  flag_not_set, flag_false, flag_true, PropertyDescriptor, ValueProperty, Slot, plain, prop,
  defined, rejected, define_own_property, accept, is_compatible_property_descriptor, get, calls,
  set, done, is_writable, same_as,
}
use sobek.Property.Spec.{IsClean, reported, reported?, apply, CleanSlot}
use sobek.Property.Refinement.{define_own_property-apply}
use sobek.Property.Invariants.{define_own_property-Keeps, Keeps}
use sobek.Property.Errors.{define_own_property_cases}
use sobek.Property.Accessors.{
  define_own_property-CleanSlot, accessor_stays_writable, data_keeps_getter,
}

-- Function objects are those with an even number, and no two objects wrap the same Go value.
abbrev objects : Objects
objects = record { equal = λ a b. false; callable = λ f. f == 4 }

abbrev no_fields : PropertyDescriptor
no_fields = record {
  value = none;
  writable = flag_not_set;
  configurable = flag_not_set;
  enumerable = flag_not_set;
  getter = none;
  setter = none;
}

abbrev frozen : ValueProperty
frozen = record {
  value = some (int (pos 7));
  writable = false;
  configurable = false;
  enumerable = true;
  accessor = false;
  getter_func = none;
  setter_func = none;
}

abbrev open_value : ValueProperty
open_value = record frozen { writable = true; configurable = true }

abbrev open_accessor : ValueProperty
open_accessor = record frozen {
  value = none;
  configurable = true;
  accessor = true;
  getter_func = some 4;
}

abbrev with_getter : PropertyDescriptor
with_getter = record no_fields { getter = some (object 4) }

abbrev hidden : PropertyDescriptor
hidden = record no_fields { value = some (int (pos 7)); enumerable = flag_false }

frozen-IsClean : IsClean frozen
frozen-IsClean = ground arith

hide_frozen : define_own_property objects true (some (prop frozen)) hidden false ≡ rejected
unfolding define_own_property
hide_frozen = refl

new_plain :
    define_own_property objects true none
      (record hidden { writable = flag_true; configurable = flag_true; enumerable = flag_true })
      true
    ≡ defined (plain (int (pos 7)))
unfolding define_own_property
new_plain = refl

same_frozen :
    define_own_property objects false
      (some (prop frozen))
      (record no_fields { value = some (int (pos 7)) })
      true
    ≡ defined (prop frozen)
unfolding define_own_property same_as
same_frozen = refl

define_own_property-apply_example :
    reported (prop frozen)
    ≡ apply (reported? (some (prop frozen))) (record no_fields { value = some (int (pos 7)) })
define_own_property-apply_example =
    define_own_property-apply objects false true (some (prop frozen))
      (record no_fields { value = some (int (pos 7)) }) refl frozen-IsClean same_frozen

define_own_property-Keeps_example : Keeps objects (reported (prop frozen)) (reported (prop frozen))
define_own_property-Keeps_example =
    define_own_property-Keeps objects false true frozen
      (record no_fields { value = some (int (pos 7)) }) refl frozen-IsClean refl same_frozen

define_own_property-CleanSlot_example : CleanSlot (some (prop frozen))
define_own_property-CleanSlot_example =
    define_own_property-CleanSlot objects false true (some (prop frozen))
      (record no_fields { value = some (int (pos 7)) }) refl frozen-IsClean (inr refl) same_frozen

define_own_property_cases_example :
    (is_compatible_property_descriptor objects true hidden (some frozen) false ≡ accept)
      × ((s : Slot) × (define_own_property objects true (some (prop frozen)) hidden false
            ≡ defined s))
    ⊎ (is_compatible_property_descriptor objects true hidden (some frozen) false ≢ accept)
      × (define_own_property objects true (some (prop frozen)) hidden false ≡ rejected)
define_own_property_cases_example =
    define_own_property_cases objects true false (some (prop frozen)) hidden refl refl

accessor_stays_writable_example :
    (q : ValueProperty) × (define_own_property objects true
        (some (prop open_value))
        with_getter
        true
      ≡ defined (prop q))
    × (q.accessor ≡ true)
    × (q.setter_func ≡ none)
    × (is_writable q ≡ true)
    × ((v : Value) → set q v ≡ done (record q { value = some v }))
accessor_stays_writable_example =
    accessor_stays_writable objects true true open_value with_getter 4 refl refl refl refl refl refl
      refl refl

data_keeps_getter_example :
    (q : ValueProperty) × (define_own_property objects true
        (some (prop open_accessor))
        (record no_fields { writable = flag_true })
        true
      ≡ defined (prop q))
    × (q.accessor ≡ false)
    × (get q ≡ calls 4)
data_keeps_getter_example =
    data_keeps_getter objects true true open_accessor (record no_fields { writable = flag_true }) 4
      refl refl refl refl refl
