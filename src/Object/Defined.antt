-- ===== src/Object/Defined.antt =====
-- A write of a value, a new property and a definition, each as a step of OrdinarySet.
use sobek.Base.{
  ℕ, Bool, true, false, Option, none, some, ◌≡◌, inl, inr, refl, arith, ◌==◌, ==_refl, ==→≡,
  if◌then◌else◌, is_some, Bool-cases,
}
use sobek.Value.{Value, object, Objects}
use sobek.Property.{Slot, plain, prop, define_own_property, defined, rejected, type_error}
use sobek.Property.Spec.{data_property, reported}
use sobek.Array.State.{Result, returned, called, setter_call, refuse}
use sobek.Object.{read, value, Store, write_str, add_str}
use sobek.Object.Assign.{value_only, all_attributes}
use sobek.Object.Written.{
  Carries, Verdict, assigned, receiver_verdict, writes, Written, calls_setter, refused,
}

pub write_str-Written :
    (o name : ℕ) (val : Value) (v : Slot) (s : Store)
    → is_some ((s o).values name) ≡ true
    → reported v ≡ assigned ((s o).values name) val
    → ((receiver : ℕ) → read v receiver ≡ value val)
    → Written s o name val (write_str o name v s)
write_str-Written o name val v s old e k = record {
  slot = (v, simp ==_refl, e, k);
  names = simp (==_refl, old);
  other_names = λ a out. rw out refl;
  others = λ a n out. elim (Bool-cases (a == o)) [
    | inl y ↦ rw (y, ==→≡ a o y) (ground (arith, out, y))
    | inr h ↦ rw h refl
  ];
  objects = λ a. elim (Bool-cases (a == o)) [
    | inl y ↦ let e = ==→≡ a o y in rw (y, e) (refl, refl, refl)
    | inr h ↦ rw h (refl, refl, refl)
  ];
}

pub add_str-Written :
    (o name : ℕ) (val : Value) (v : Slot) (s : Store)
    → (s o).values name ≡ none
    → reported v ≡ data_property val true true true
    → ((receiver : ℕ) → read v receiver ≡ value val)
    → Written s o name val (add_str o name v s)
add_str-Written o name val v s new e k = record {
  slot = (v, simp ==_refl, simp (e, new), k);
  names = simp (==_refl, new);
  other_names = λ a out. rw out refl;
  others = λ a n out. elim (Bool-cases (a == o)) [
    | inl y ↦ rw (y, ==→≡ a o y) (ground (arith, out, y))
    | inr h ↦ rw h refl
  ];
  objects = λ a. elim (Bool-cases (a == o)) [
    | inl y ↦ let e = ==→≡ a o y in rw (y, e) (refl, refl, refl)
    | inr h ↦ rw h (refl, refl, refl)
  ];
}

-- Defining the value alone of a writable data property, and a new property with all attributes.
pub define_value :
    (rt : Objects) (extensible : Bool) (u : Slot) (val : Value) (throw : Bool)
    → receiver_verdict extensible (some u) ≡ writes
    → (v : Slot) × (define_own_property rt extensible (some u) (value_only val) throw ≡ defined v)
      × (reported v ≡ assigned (some u) val)
      × ((receiver : ℕ) → read v receiver ≡ value val)
unfolding define_own_property reported read
define_value rt extensible (plain w) val throw h = (_, refl, refl, λ receiver. refl)
define_value rt extensible (prop p) val throw h =
    let is_data : p.accessor ≡ false = ground (arith, h) in
    let writable : p.writable ≡ true = ground (arith, h) in
    (
      prop
          (record p { value = some val; getter_func = none; setter_func = none; accessor = false }),
      ground (arith, is_data, writable),
      refl,
      λ receiver. refl,
    )

pub define_new :
    (rt : Objects) (val : Value) (throw : Bool)
    → define_own_property rt true none (all_attributes val) throw ≡ defined (plain val)
unfolding define_own_property
define_new rt val throw = refl

pub define_fixed :
    (rt : Objects) (val : Value) (throw : Bool)
    → define_own_property rt false none (all_attributes val) throw
      ≡ (if throw then type_error none else rejected)
unfolding define_own_property
define_fixed rt val true = refl
define_fixed rt val false = refl

module _ (s : Store) (name : ℕ) (val : Value) (throw : Bool) where
  -- Each verdict, carried out.
  pub Carries-writes :
      (o : ℕ) (s' : Store) {v : Verdict} {r : Option (Result Store)}
      → v ≡ writes
      → r ≡ some (returned true s')
      → Written s o name val s'
      → Carries s name val (object o) throw v r
  Carries-writes o s' e q w = rw e (o, refl, s', q, w)

  pub Carries-refused :
      (receiver : Value) {v : Verdict} {r : Option (Result Store)}
      → v ≡ refused
      → r ≡ some (refuse throw s)
      → Carries s name val receiver throw v r
  Carries-refused receiver e q = rw e q

  pub Carries-calls :
      (receiver : Value) (f : ℕ) {v : Verdict} {r : Option (Result Store)}
      → v ≡ calls_setter f
      → r ≡ some (called (setter_call f (some receiver) val) s)
      → Carries s name val receiver throw v r
  Carries-calls receiver f e q = rw e q
