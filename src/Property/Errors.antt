-- ===== src/Property/Errors.antt =====
-- When a definition is refused, how, and that nothing else stops it.
use sobek.Base.{
  ℕ, Bool, true, false, Option, none, some, ◌≡◌, ◌≢◌, refl, arith, if◌then◌else◌, ◌∙◌, inl, inr,
  Option-cases, ◌⊎◌,
}
use sobek.Value.{Value, undefined, object, Objects, object_eq, same_as}
use sobek.Property.{
  reject, panic, flag_true, is_set, flag_bool, PropertyDescriptor, is_accessor, is_generic,
  ValueProperty, Slot, plain, prop, defined, rejected, type_error, define_own_property, accept,
  define_fields, prop_func, is_compatible_property_descriptor, define_getter, define_setter,
  existing_property, write_getter, plain_value, fill_value, write_setter, write_value, write_flags,
  property_or_empty,
}
use sobek.Property.Spec.{Property, data_property, accessor_property, reported, IsClean}

-- The function that a descriptor's field names is the one in place.
abbrev pub SameFunc : Objects → Option Value → Option ℕ → Type 0
SameFunc rt none f = Unit
SameFunc rt (some undefined) none = Unit
SameFunc rt (some (object a)) (some f) = object_eq rt a f ≡ true
SameFunc rt (some _) _ = ⊥

abbrev pub SameValue : Objects → Option Value → Value → Type 0
SameValue rt none v = Unit
SameValue rt (some w) v = same_as rt w v ≡ true

-- ECMA-262, 10.1.6.3, step 5: what may be done to a property that is not configurable.
abbrev pub IsPermitted : Objects → Property → PropertyDescriptor → Type 0
IsPermitted rt (data_property v w e c) d =
    c ≡ false
    → (d.configurable ≢ flag_true)
      × ((is_set d.enumerable ≡ true) → flag_bool d.enumerable ≡ e)
      × ((is_generic d ≡ false) → is_accessor d ≡ false)
      × (w ≡ false → (d.writable ≢ flag_true) × SameValue rt d.value v)
IsPermitted rt (accessor_property g s e c) d =
    c ≡ false
    → (d.configurable ≢ flag_true)
      × ((is_set d.enumerable ≡ true) → flag_bool d.enumerable ≡ e)
      × ((is_generic d ≡ false) → is_accessor d ≡ true)
      × SameFunc rt d.getter g
      × SameFunc rt d.setter s

-- What ECMAScript permits: a new property on an extensible object, any change of a configurable one,
-- and of another one those that keep it.
abbrev pub IsAllowed :
    Objects → (extensible : Bool) → Option ValueProperty → PropertyDescriptor → Type 0
IsAllowed rt extensible none d = extensible ≡ true
IsAllowed rt extensible (some p) d = p.configurable ≡ false → IsPermitted rt (reported (prop p)) d

abbrev pub CleanCurrent : Option ValueProperty → Type 0
CleanCurrent none = Unit
CleanCurrent (some p) = IsClean p

-- A getter or setter of the descriptor is absent, undefined or callable.
abbrev pub func_ok : Objects → Option Value → Bool
func_ok rt none = true
func_ok rt (some undefined) = true
func_ok rt (some (object f)) = rt.callable f
func_ok rt (some _) = false

prop_func_total :
    (rt : Objects) (v : Value)
    → func_ok rt (some v) ≡ true
    → (f : Option ℕ) × (prop_func rt v ≡ some f)
unfolding prop_func
prop_func_total rt undefined h = (none, refl)
prop_func_total rt (object f) h = (some f, ground arith)
prop_func_total rt v h = absurd (ground arith)

define_setter_total :
    (rt : Objects) (e : Option Slot) (d : PropertyDescriptor) (p : ValueProperty)
    → func_ok rt d.setter ≡ true
    → (s : Slot) × (define_setter rt e d p ≡ defined s)
unfolding define_setter
define_setter_total rt e d p t = elim (Option-cases d.setter) [
  | inl n ↦ (prop (fill_value p), rw (n, define_setter))
  | inr (v, q) ↦
      let (f, r) = prop_func_total rt v (rw q at t) in
      (prop (fill_value (write_setter p f)), rw (q, define_setter) (rw (r, define_setter)))
]

define_getter-none :
    (rt : Objects) (e : Option Slot) (d : PropertyDescriptor) (p : ValueProperty)
    → d.getter ≡ none
    → define_getter rt e d p ≡ define_setter rt e d p
unfolding define_getter
define_getter-none rt e d p n = simp (n, define_getter)

define_getter-some :
    (rt : Objects) (e : Option Slot) (d : PropertyDescriptor) (p : ValueProperty) {v : Value}
    {f : Option ℕ}
    → d.getter ≡ some v
    → prop_func rt v ≡ some f
    → define_getter rt e d p ≡ define_setter rt e d (write_getter p f)
unfolding define_getter
define_getter-some rt e d p q r = simp (q, r, define_getter)

define_getter_total :
    (rt : Objects) (e : Option Slot) (d : PropertyDescriptor) (p : ValueProperty)
    → func_ok rt d.getter ≡ true
    → func_ok rt d.setter ≡ true
    → (s : Slot) × (define_getter rt e d p ≡ defined s)
unfolding define_getter
define_getter_total rt e d p g t = elim (Option-cases d.getter) [
  | inl n ↦ let (s, h) = define_setter_total rt e d p t in (s, define_getter-none rt e d p n ∙ h)
  | inr (v, q) ↦
      let (f, r) = prop_func_total rt v (rw q at g) in
      let (s, h) = define_setter_total rt e d (write_getter p f) t in
      (s, define_getter-some rt e d p q r ∙ h)
]

define_fields_total :
    (rt : Objects) (e : Option Slot) (d : PropertyDescriptor)
    → func_ok rt d.getter ≡ true
    → func_ok rt d.setter ≡ true
    → (s : Slot) × (define_fields rt e d ≡ defined s)
unfolding define_fields
define_fields_total rt e d g t = elim (Option-cases (plain_value d)) [
  | inl n ↦
      let p = write_value d (write_flags d (property_or_empty e)) in
      let (s, h) = define_getter_total rt e d p g t in (s, rw (n, define_fields) h)
  | inr (v, q) ↦ (plain v, rw (q, define_fields))
]

verdict_cases :
    (rt : Objects) (extensible throw : Bool) (d : PropertyDescriptor) (e : Option ValueProperty)
    → (is_compatible_property_descriptor rt extensible d e throw ≡ accept)
      ⊎ (is_compatible_property_descriptor rt extensible d e throw
          ≡ (if throw then panic else reject))
unfolding is_compatible_property_descriptor
verdict_cases rt extensible throw d none = ground arith
verdict_cases rt extensible throw d (some p) = ground arith

-- What a definition comes to, given that the descriptor's getter and setter, if any, are undefined
-- or callable: it succeeds when the test accepts it, and otherwise it is rejected, or throws where
-- asked to and leaves the slot as it was.
pub define_own_property_cases :
    (rt : Objects) (extensible throw : Bool) (existing : Option Slot) (d : PropertyDescriptor)
    → func_ok rt d.getter ≡ true
    → func_ok rt d.setter ≡ true
    → (is_compatible_property_descriptor rt extensible d (existing_property existing) throw
          ≡ accept)
        × ((s : Slot) × (define_own_property rt extensible existing d throw ≡ defined s))
      ⊎ (is_compatible_property_descriptor rt extensible d (existing_property existing) throw
          ≢ accept)
        × (define_own_property rt extensible existing d throw
            ≡ (if throw then type_error existing else rejected))
unfolding define_own_property
define_own_property_cases rt extensible throw existing d g t =
    elim (verdict_cases rt extensible throw d (existing_property existing)) [
      | inl a ↦
          let (s, h) = define_fields_total rt existing d g t in
          inl (a, (s, rw (a, define_own_property) h))
      | inr r ↦ inr (λ a. ground arith, rw (r, define_own_property) (ground arith))
    ]
