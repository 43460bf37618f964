-- ===== src/Object/Written.antt =====
-- Assignment as ECMAScript describes it (OrdinarySet, ECMA-262, 10.1.9), and that `setStr` follows it.
use sobek.Base.{
  ℕ, Bool, true, false, ◌&&◌, List, [], ◌∷◌, ◌++◌, Option, none, some, ◌≡◌, ◌==◌, if◌then◌else◌,
  is_some,
}
use sobek.Value.{Value, object}
use sobek.Property.{Slot, plain, prop}
use sobek.Property.Spec.{Property, data_property, reported, CleanSlot}
use sobek.Array.State.{Result, returned, called, setter_call, refuse}
use sobek.Object.{read, value, Store}

pub data Verdict : Type 0 where
  refused : Verdict
  calls_setter : ℕ → Verdict
  writes : Verdict

-- The first property with the name along a chain.
abbrev pub resolve : Store → ℕ → List ℕ → Option Slot
resolve s name [] = none
resolve s name (o ∷ ps) = elim ((s o).values name) [ some v ↦ some v | none ↦ resolve s name ps ]

-- What a receiver makes of an assignment: its own property is a writable data property, or it has
-- none and is extensible.
abbrev pub receiver_verdict : Bool → Option Slot → Verdict
receiver_verdict extensible none = if extensible then writes else refused
receiver_verdict extensible (some (plain _)) = writes
receiver_verdict extensible (some (prop q)) =
    if q.accessor then refused else if q.writable then writes else refused

abbrev pub on_receiver : Store → ℕ → Value → Verdict
on_receiver s name (object r) = receiver_verdict (s r).extensible ((s r).values name)
on_receiver s name _ = refused

-- The property found decides; a writable data property, or none, leaves it to the receiver.
abbrev pub slot_verdict : Option Slot → Verdict → Verdict
slot_verdict none v = v
slot_verdict (some (plain _)) v = v
slot_verdict (some (prop p)) v =
    if p.accessor
    then elim p.setter_func [ none ↦ refused | some f ↦ calls_setter f ]
    else if p.writable
    then v
    else refused

abbrev pub verdict : Store → ℕ → List ℕ → Value → Verdict
verdict s name ps receiver = slot_verdict (resolve s name ps) (on_receiver s name receiver)

-- The data property after the assignment: a new one has all attributes.
abbrev pub assigned : Option Slot → Value → Property
assigned (some (prop q)) val = data_property val q.writable q.enumerable q.configurable
assigned _ val = data_property val true true true

-- One property of one object has the value, and the rest of the store is as it was.
pub record Written (s : Store) (r name : ℕ) (val : Value) (s' : Store) : Type 0 where
  pub slot :
      (v : Slot) × ((s' r).values name ≡ some v)
      × (reported v ≡ assigned ((s r).values name) val)
      × ((receiver : ℕ) → read v receiver ≡ value val)
  pub names :
      (s' r).prop_names
      ≡ (if is_some ((s r).values name) then (s r).prop_names else (s r).prop_names ++ (name ∷ []))
  pub other_names : (o : ℕ) → (o == r) ≡ false → (s' o).prop_names ≡ (s o).prop_names
  pub others : (o n : ℕ) → ((o == r) && (n == name)) ≡ false → (s' o).values n ≡ (s o).values n
  pub objects :
      (o : ℕ)
      → ((s' o).prototype ≡ (s o).prototype)
        × ((s' o).extensible ≡ (s o).extensible)
        × ((s' o).sym_values ≡ (s o).sym_values)

-- A result that carries a verdict out.
abbrev pub Carries :
    Store → ℕ → Value → (receiver : Value) → Bool → Verdict → Option (Result Store) → Type 0
Carries s name val receiver throw refused r = r ≡ some (refuse throw s)
Carries s name val receiver throw (calls_setter f) r =
    r ≡ some (called (setter_call f (some receiver) val) s)
Carries s name val receiver throw writes r =
    (o : ℕ) × (receiver ≡ object o)
    × (s' : Store) × (r ≡ some (returned true s'))
    × Written s o name val s'

abbrev pub IsCleanStore : Store → Type 0
IsCleanStore s = (o n : ℕ) → CleanSlot ((s o).values n)
