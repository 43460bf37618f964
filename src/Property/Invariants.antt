-- ===== src/Property/Invariants.antt =====
-- What a property that is not configurable keeps, whatever is done to it.
use sobek.Base.{
  ℕ, Bool, true, false, Option, none, some, ◌≡◌, ◌≢◌, refl, arith, ◌⊎◌, Bool-cases, inl, inr,
}
use sobek.Value.{Value, Objects, object_eq, same_as}
use sobek.Value.Sameness.{same_as_refl}
use sobek.Property.{
  PropertyDescriptor, is_accessor, is_data, ValueProperty, Slot, prop, defined, define_own_property,
  redefines, accept, is_compatible_property_descriptor, func_differs, value_differs, is_generic,
}
use sobek.Property.Spec.{
  value_or_undefined, Property, data_property, accessor_property, reported, apply, IsWellFormed,
  IsClean, func_or, flag_or, value_or,
}
use sobek.Property.Refinement.{define_own_property-apply, define_fields-of_define}

abbrev pub same_func : Objects → Option ℕ → Option ℕ → Bool
same_func rt none none = true
same_func rt (some f) (some g) = object_eq rt f g
same_func rt _ _ = false

-- The second property has the kind of the first and is enumerable and configurable as the first is;
-- an accessor has the same functions; and where the first is not writable, the second is not either
-- and has the same value, up to `SameAs`.
abbrev pub Keeps : Objects → Property → Property → Type 0
Keeps rt (data_property v w e c) (data_property v' w' e' c') =
    (e' ≡ e) × (c' ≡ c) × (w ≡ false → (w' ≡ false) × (same_as rt v' v ≡ true))
Keeps rt (accessor_property g s e c) (accessor_property g' s' e' c') =
    (e' ≡ e) × (c' ≡ c) × (same_func rt g' g ≡ true) × (same_func rt s' s ≡ true)
Keeps rt _ _ = ⊥

object_eq_refl : (rt : Objects) (f : ℕ) → object_eq rt f f ≡ true
unfolding object_eq
object_eq_refl rt f = ground arith

same_func-of_not_differs :
    (rt : Objects) (v : Option Value) (f : Option ℕ)
    → func_differs rt v f ≡ false
    → same_func rt (func_or v f) f ≡ true
unfolding func_differs
same_func-of_not_differs rt none none h = refl
same_func-of_not_differs rt none (some f) h = object_eq_refl rt f
same_func-of_not_differs rt (some v) f h = ground arith

same_as-of_not_differs :
    (rt : Objects) (w v : Option Value)
    → v ≢ none
    → value_differs rt w v ≡ false
    → same_as rt (value_or w (value_or_undefined v)) (value_or_undefined v) ≡ true
unfolding value_differs
same_as-of_not_differs rt none v n h = same_as_refl rt (value_or_undefined v)
same_as-of_not_differs rt (some w) none n h = absurd (n refl)
same_as-of_not_differs rt (some w) (some v) n h = ground arith

accept-not_redefines :
    (rt : Objects) (extensible throw : Bool) (d : PropertyDescriptor) (p : ValueProperty)
    → is_compatible_property_descriptor rt extensible d (some p) throw ≡ accept
    → p.configurable ≡ false
    → redefines rt d p ≡ false
unfolding is_compatible_property_descriptor
accept-not_redefines rt extensible throw d p h n = ground arith

-- What the tests rule out, one test at a time.
module _ (rt : Objects) (d : PropertyDescriptor) (p : ValueProperty)
    (h : redefines rt d p ≡ false) where
  configurable_kept : flag_or d.configurable false ≡ false
  unfolding redefines
  configurable_kept = ground arith

  enumerable_kept : flag_or d.enumerable p.enumerable ≡ p.enumerable
  unfolding redefines
  enumerable_kept = ground arith

  kind_kept : (is_generic d ≡ true) ⊎ (is_accessor d ≡ p.accessor)
  unfolding redefines
  kind_kept = ground arith

  getter_kept : p.accessor ≡ true → func_differs rt d.getter p.getter_func ≡ false
  unfolding redefines
  getter_kept a = ground arith

  setter_kept : p.accessor ≡ true → func_differs rt d.setter p.setter_func ≡ false
  unfolding redefines
  setter_kept a = ground arith

  writable_kept : p.accessor ≡ false → p.writable ≡ false → flag_or d.writable false ≡ false
  unfolding redefines
  writable_kept a w = ground arith

  value_kept : p.accessor ≡ false → p.writable ≡ false → value_differs rt d.value p.value ≡ false
  unfolding redefines
  value_kept a w = ground arith

  data_kept : p.accessor ≡ false → is_accessor d ≡ false
  data_kept a = ground (arith, kind_kept)

  accessor_kept : IsWellFormed d → p.accessor ≡ true → is_data d ≡ false
  accessor_kept w a = ground (arith, kind_kept)

apply-Keeps :
    (rt : Objects) (d : PropertyDescriptor) (p : ValueProperty)
    → IsWellFormed d
    → IsClean p
    → p.configurable ≡ false
    → redefines rt d p ≡ false
    → Keeps rt (reported (prop p)) (apply (some (reported (prop p))) d)
unfolding reported apply
apply-Keeps rt d p w c n h = elim (Bool-cases p.accessor) [
  | inl a ↦
      rw (a, accessor_kept rt d p h w a)
        (
          enumerable_kept rt d p h,
          rw n (configurable_kept rt d p h),
          same_func-of_not_differs rt d.getter p.getter_func (getter_kept rt d p h a),
          same_func-of_not_differs rt d.setter p.setter_func (setter_kept rt d p h a),
        )
  | inr a ↦
      rw (a, data_kept rt d p h a)
        (
          enumerable_kept rt d p h,
          rw n (configurable_kept rt d p h),
          λ r. (
            rw r (writable_kept rt d p h a r),
            same_as-of_not_differs rt d.value p.value (c.data_value a) (value_kept rt d p h a r),
          ),
        )
]

-- A property that is not configurable stays so and keeps whether it is enumerable, its kind and its
-- functions through every successful definition, and where it is not writable it stays so and keeps
-- its value, up to `SameAs`; for a descriptor that is not both a data and an accessor one, and a
-- property that holds the fields of its own kind only.
pub define_own_property-Keeps :
    (rt : Objects) (extensible throw : Bool) (p : ValueProperty) (d : PropertyDescriptor) {s : Slot}
    → IsWellFormed d
    → IsClean p
    → p.configurable ≡ false
    → define_own_property rt extensible (some (prop p)) d throw ≡ defined s
    → Keeps rt (reported (prop p)) (reported s)
define_own_property-Keeps rt extensible throw p d w c n h =
    rw (define_own_property-apply rt extensible throw (some (prop p)) d w c h) (
      apply-Keeps rt d p w c n (
        accept-not_redefines rt extensible throw d p
          (define_fields-of_define rt extensible throw (some (prop p)) d h).0 n))
