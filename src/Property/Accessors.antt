-- ===== src/Property/Accessors.antt =====
-- Definitions that keep a property to the fields of its own kind, and the two that do not: a
-- writable data property made an accessor, and an accessor made a data property without a value.
use sobek.Base.{
  ℕ, Bool, true, false, Option, none, some, ◌≡◌, ◌⊎◌, inl, inr, refl, arith, if◌then◌else◌, ◌||◌,
  Option-cases,
}
use sobek.Value.{Value, object, Objects}
use sobek.Property.{
  is_set, PropertyDescriptor, is_accessor, set, done, is_generic, ValueProperty, Slot, plain, prop,
  defined, define_own_property, define_fields, prop_func, define_getter, define_setter, write_flags,
  write_value, property_or_empty, plain_value, fill_value, is_writable, get, calls,
  prop_to_value_prop, write_getter,
}
use sobek.Property.Spec.{IsClean, CleanSlot, IsWellFormed, func_or, value_or_undefined}
use sobek.Property.Refinement.{define_fields-of_define}

-- The property once the functions are in place.
final : PropertyDescriptor → ValueProperty → ValueProperty
final d p = record p {
  accessor = is_accessor d || p.accessor;
  getter_func = func_or d.getter p.getter_func;
  setter_func = func_or d.setter p.setter_func;
  value =
      if is_accessor d
      then none
      else if p.accessor
      then p.value
      else some (value_or_undefined p.value);
}

define_setter-final :
    (rt : Objects) (e : Option Slot) (d : PropertyDescriptor) (p : ValueProperty) {s : Slot}
    → define_setter rt e d p ≡ defined s
    → d.getter ≡ none
    → s ≡ prop (final d p)
unfolding define_setter prop_func final
define_setter-final rt e d p h n = ground arith

define_getter-final :
    (rt : Objects) (e : Option Slot) (d : PropertyDescriptor) (p : ValueProperty) {s : Slot}
    → define_getter rt e d p ≡ defined s
    → s ≡ prop (final d p)
unfolding define_getter prop_func final
define_getter-final rt e d p h = ground arith

-- The descriptor does not change the kind of a property that is there.
abbrev pub KeepsKind : Option Slot → PropertyDescriptor → Type 0
KeepsKind none d = Unit
KeepsKind (some s) d = (is_generic d ≡ true) ⊎ (is_accessor d ≡ (prop_to_value_prop s).accessor)

final-IsClean :
    (e : Option Slot) (d : PropertyDescriptor)
    → IsWellFormed d
    → CleanSlot e
    → KeepsKind e d
    → IsClean (final d (write_value d (write_flags d (property_or_empty e))))
unfolding final write_value write_flags
final-IsClean none d w c k = ground arith
final-IsClean (some (plain v)) d w c k = ground arith
final-IsClean (some (prop p)) d w c k = record {
  accessor_writable = λ a. ground arith;
  data_getter = λ a. ground arith;
  data_setter = λ a. ground arith;
  data_value = λ a. ground arith;
  accessor_value = λ a. ground arith;
}

fields-Clean :
    (rt : Objects) (e : Option Slot) (d : PropertyDescriptor) {s : Slot}
    → IsWellFormed d
    → CleanSlot e
    → KeepsKind e d
    → define_fields rt e d ≡ defined s
    → CleanSlot (some s)
unfolding define_fields
fields-Clean rt e d {s} w c k h = elim (Option-cases (plain_value d)) [
  | inl n ↦
      let p = write_value d (write_flags d (property_or_empty e)) in
      let q : s ≡ prop (final d p) = define_getter-final rt e d p (rw (n, define_fields) at h) in
      rw q (final-IsClean e d w c k)
  | inr (v, q) ↦ let r : s ≡ plain v = ground arith in rw r tt
]

-- A definition that succeeds, by a descriptor that is not both a data and an accessor one, on a slot
-- without a property or with one that holds the fields of its own kind only and that keeps its kind,
-- leaves a property that holds the fields of its own kind only.
pub define_own_property-CleanSlot :
    (rt : Objects) (extensible throw : Bool) (existing : Option Slot) (d : PropertyDescriptor)
    {s : Slot}
    → IsWellFormed d
    → CleanSlot existing
    → KeepsKind existing d
    → define_own_property rt extensible existing d throw ≡ defined s
    → CleanSlot (some s)
define_own_property-CleanSlot rt extensible throw existing d w c k h =
    fields-Clean rt existing d w c k (define_fields-of_define rt extensible throw existing d h).1

-- A configurable writable data property that is made an accessor with a getter alone still counts
-- as writable, so an assignment to it stores a value and reports no error.
pub accessor_stays_writable :
    (rt : Objects) (extensible throw : Bool) (p : ValueProperty) (d : PropertyDescriptor) (f : ℕ)
    → p.configurable ≡ true
    → p.writable ≡ true
    → p.setter_func ≡ none
    → d.getter ≡ some (object f)
    → rt.callable f ≡ true
    → d.setter ≡ none
    → d.value ≡ none
    → is_set d.writable ≡ false
    → (q : ValueProperty) × (define_own_property rt extensible (some (prop p)) d throw
        ≡ defined (prop q))
      × (q.accessor ≡ true)
      × (q.setter_func ≡ none)
      × (is_writable q ≡ true)
      × ((v : Value) → set q v ≡ done (record q { value = some v }))
unfolding define_own_property prop_func set
accessor_stays_writable rt extensible throw p d f c w n g k t v i = (
  write_getter (write_value d (write_flags d p)) (some f),
  ground arith,
  refl,
  ground arith,
  ground arith,
  λ u. ground arith,
)

-- A configurable property with a getter that is made a data property by its `writable` attribute
-- alone is one by its `accessor` field, and reading it still calls the getter.
pub data_keeps_getter :
    (rt : Objects) (extensible throw : Bool) (p : ValueProperty) (d : PropertyDescriptor) (f : ℕ)
    → p.configurable ≡ true
    → p.getter_func ≡ some f
    → is_set d.writable ≡ true
    → d.value ≡ none
    → is_accessor d ≡ false
    → (q : ValueProperty) × (define_own_property rt extensible (some (prop p)) d throw
        ≡ defined (prop q))
      × (q.accessor ≡ false)
      × (get q ≡ calls f)
unfolding define_own_property prop_func get
data_keeps_getter rt extensible throw p d f c g w v a =
    (fill_value (write_value d (write_flags d p)), ground arith, ground arith, ground arith)
