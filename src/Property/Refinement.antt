-- ===== src/Property/Refinement.antt =====
-- `_defineOwnProperty` against the property that ECMAScript prescribes.
use sobek.Base.{
  ℕ, Bool, true, Option, none, some, ◌≡◌, refl, arith, if◌then◌else◌, is_some, Bool-cases, inl, inr,
  Option-cases, ◌∙◌,
}
use sobek.Value.{Value, Objects}
use sobek.Property.{
  reject, panic, Flag, flag_not_set, flag_false, flag_true, is_set, flag_bool, PropertyDescriptor,
  is_accessor, ValueProperty, Slot, plain, prop, defined, rejected, type_error, prop_func,
  define_setter, define_getter, define_fields, define_own_property, write_flags, write_value,
  write_getter, property_or_empty, plain_value, is_compatible_property_descriptor,
  existing_property, accept, Verdict,
}
use sobek.Property.Spec.{
  Property, data_property, accessor_property, reported, apply, reported?, IsWellFormed, IsClean,
  CleanSlot, func_or, flag_or,
}

prop_func-func_or :
    (rt : Objects) (v : Value) {f : Option ℕ} (g : Option ℕ)
    → prop_func rt v ≡ some f
    → func_or (some v) g ≡ f
unfolding prop_func
prop_func-func_or rt v g h = ground arith

-- What the getter and setter of the descriptor make of a property.
define_setter-reported :
    (rt : Objects) (e : Option Slot) (d : PropertyDescriptor) (p : ValueProperty) {s : Slot}
    → define_setter rt e d p ≡ defined s
    → reported s ≡ (
        if is_some d.setter
        then accessor_property p.getter_func
            (func_or d.setter p.setter_func)
            p.enumerable
            p.configurable
        else reported (prop p))
unfolding define_setter reported prop_func
define_setter-reported rt e d p h = ground arith

define_getter-reported :
    (rt : Objects) (e : Option Slot) (d : PropertyDescriptor) (p : ValueProperty) {s : Slot}
    → define_getter rt e d p ≡ defined s
    → reported s ≡ (
        if is_accessor d
        then accessor_property
            (func_or d.getter p.getter_func)
            (func_or d.setter p.setter_func)
            p.enumerable
            p.configurable
        else reported (prop p))
unfolding define_getter write_getter reported prop_func
define_getter-reported rt e d p h = ground arith

flag_or_lem : (f : Flag) (b : Bool) → (if is_set f then flag_bool f else b) ≡ flag_or f b
flag_or_lem flag_not_set b = refl
flag_or_lem flag_false b = refl
flag_or_lem flag_true b = refl

-- The property that the descriptor's fields leave behind, once the functions are in place.
abbrev Written : Option Slot → PropertyDescriptor → Property
unfolding write_value write_flags
Written e d =
    let p = write_value d (write_flags d (property_or_empty e)) in
    if is_accessor d
    then accessor_property (func_or d.getter p.getter_func) (func_or d.setter p.setter_func)
        p.enumerable p.configurable
    else reported (prop p)

write-apply_prop :
    (p : ValueProperty) (d : PropertyDescriptor)
    → IsWellFormed d
    → IsClean p
    → Written (some (prop p)) d ≡ apply (some (reported (prop p))) d
unfolding write_value write_flags reported apply
write-apply_prop p d w c = elim (Bool-cases p.accessor) [
  | inl a ↦ elim (Bool-cases (is_accessor d)) [
    | inl b ↦ simp (flag_or_lem, a, b) (ground arith)
    | inr b ↦ simp (flag_or_lem, a, b) (ground arith)
  ]
  | inr a ↦ elim (Bool-cases (is_accessor d)) [
    | inl b ↦ simp (flag_or_lem, a, b, c.data_getter a, c.data_setter a) (ground arith)
    | inr b ↦ simp (flag_or_lem, a, b) (ground arith)
  ]
]

write-apply :
    (e : Option Slot) (d : PropertyDescriptor)
    → IsWellFormed d
    → CleanSlot e
    → Written e d ≡ apply (reported? e) d
unfolding write_value write_flags reported apply
write-apply none d w c = simp flag_or_lem (ground arith)
write-apply (some (plain v)) d w c = simp flag_or_lem (ground arith)
write-apply (some (prop p)) d w c = write-apply_prop p d w c

plain-apply :
    (e : Option Slot) (d : PropertyDescriptor) {v : Value}
    → IsWellFormed d
    → plain_value d ≡ some v
    → data_property v true true true ≡ apply (reported? e) d
unfolding reported apply
plain-apply none d w h = ground arith
plain-apply (some (plain u)) d w h = ground arith
plain-apply (some (prop p)) d w h = ground arith

plain-reported :
    (v : Value) {s : Slot}
    → defined (plain v) ≡ defined s
    → reported s ≡ data_property v true true true
unfolding reported
plain-reported v h = ground arith

define_fields-apply :
    (rt : Objects) (e : Option Slot) (d : PropertyDescriptor) {s : Slot}
    → IsWellFormed d
    → CleanSlot e
    → define_fields rt e d ≡ defined s
    → reported s ≡ apply (reported? e) d
unfolding define_fields write_flags write_value
define_fields-apply rt e d w c h = elim (Option-cases (plain_value d)) [
  | inl n ↦ define_getter-reported rt e d _ (rw (n, define_fields) at h) ∙ write-apply e d w c
  | inr (v, q) ↦ plain-reported v (rw (q, define_fields) at h) ∙ plain-apply e d w q
]

-- Only a compatible descriptor gets as far as the fields.
pub define_fields-of_define :
    (rt : Objects) (extensible throw : Bool) (existing : Option Slot) (d : PropertyDescriptor)
    {s : Slot}
    → define_own_property rt extensible existing d throw ≡ defined s
    → (is_compatible_property_descriptor rt extensible d (existing_property existing) throw
        ≡ accept)
      × (define_fields rt existing d ≡ defined s)
unfolding define_own_property
define_fields-of_define rt extensible throw existing d {s} h =
    go (is_compatible_property_descriptor rt extensible d (existing_property existing) throw) refl h
  where
    go :
        (v : Verdict)
        → is_compatible_property_descriptor rt extensible d (existing_property existing) throw ≡ v
        → elim v [
          | accept ↦ define_fields rt existing d
          | reject ↦ rejected
          | panic ↦ type_error existing
        ]
          ≡ defined s
        → (is_compatible_property_descriptor rt extensible d (existing_property existing) throw
            ≡ accept)
          × (define_fields rt existing d ≡ defined s)
    go accept e k = (e, k)
    go reject e k = cc
    go panic e k = cc

-- Whatever is defined, the property reported afterwards is the one that ECMAScript prescribes, for
-- a descriptor that is not both a data and an accessor one and a property that holds the fields of
-- its own kind only.
pub define_own_property-apply :
    (rt : Objects) (extensible throw : Bool) (existing : Option Slot) (d : PropertyDescriptor)
    {s : Slot}
    → IsWellFormed d
    → CleanSlot existing
    → define_own_property rt extensible existing d throw ≡ defined s
    → reported s ≡ apply (reported? existing) d
define_own_property-apply rt extensible throw existing d w c h =
    define_fields-apply rt existing d w c
      (define_fields-of_define rt extensible throw existing d h).1
