-- ===== src/Object/Assign.antt =====
-- Assignment (object.go): `setOwnStr`, `setForeignStr`, `setStr` and their twins for symbols. A
-- foreign setter reports whether it has dealt with the assignment.
use sobek.Base.{ℕ, zero, suc, Bool, true, not, Option, none, some, if◌then◌else◌}
use sobek.Value.{Value, object, Objects}
use sobek.Property.{
  plain, prop, is_writable, set, done, calls, flag_true, flag_not_set, PropertyDescriptor,
}
use sobek.Array.State.{Result, returned, called, setter_call, refuse}
use sobek.Object.{
  Store, is_object, write_str, add_str, write_sym, define_own_property_str, define_own_property_sym,
}

pub data Foreign : Type 0 where
  unhandled : Foreign
  handled : Result Store → Foreign

abbrev pub handle : Option (Result Store) → Option Foreign
handle none = none
handle (some r) = some (handled r)

abbrev pub unless_handled : Result Store → Option Foreign → Option (Result Store)
unless_handled r none = none
unless_handled r (some unhandled) = some r
unless_handled r (some (handled r')) = some r'

-- A new property, for an assignment that no prototype has dealt with.
abbrev pub add_own_str : Store → (o name : ℕ) → Value → (throw : Bool) → Result Store
add_own_str s o name val throw =
    if not (s o).extensible then refuse throw s else returned true (add_str o name (plain val) s)

unfoldable mutual
  pub set_own_str : ℕ → Store → (o name : ℕ) → Value → (throw : Bool) → Option (Result Store)
  set_own_str zero s o name val throw = none
  set_own_str (suc fuel) s o name val throw = elim ((s o).values name) [
    | some (prop p) ↦ if not (is_writable p) then some (refuse throw s) else elim (set p val) [
      | done q ↦ some (returned true (write_str o name (prop q) s))
      | calls f ↦ some (called (setter_call f (some (object o)) val) s)
    ]
    | some (plain _) ↦ some (returned true (write_str o name (plain val) s))
    | none ↦ elim (s o).prototype [
      | none ↦ some (add_own_str s o name val throw)
      | some p ↦
          unless_handled (add_own_str s o name val throw)
            (set_foreign_str fuel s p name val (object o) throw)
    ]
  ]

  pub set_foreign_str :
      ℕ → Store → (o name : ℕ) → (val receiver : Value) → (throw : Bool) → Option Foreign
  set_foreign_str zero s o name val receiver throw = none
  set_foreign_str (suc fuel) s o name val receiver throw = elim ((s o).values name) [
    | some (prop p) ↦
        if not (is_writable p) then some (handled (refuse throw s)) else elim p.setter_func [
          | none ↦ some unhandled
          | some f ↦ some (handled (called (setter_call f (some receiver) val) s))
        ]
    | some (plain _) ↦ some unhandled
    | none ↦ elim (s o).prototype [
      | none ↦ some unhandled
      | some p ↦
          let own = handle (set_own_str fuel s p name val throw) in
          let foreign = set_foreign_str fuel s p name val receiver throw in
          if is_object receiver p then own else foreign
    ]
  ]

-- `PropertyDescriptor{Value: val}`
abbrev pub value_only : Value → PropertyDescriptor
value_only val = record {
  value = some val;
  writable = flag_not_set;
  configurable = flag_not_set;
  enumerable = flag_not_set;
  getter = none;
  setter = none;
}

abbrev pub all_attributes : Value → PropertyDescriptor
all_attributes val = record (value_only val) {
  writable = flag_true;
  configurable = flag_true;
  enumerable = flag_true;
}

-- The end of `setStr`: the property is the receiver's own.
unfoldable pub set_on_receiver_str :
    Objects → Store → (name : ℕ) → (val receiver : Value) → (throw : Bool) → Result Store
unfolding define_own_property_str
set_on_receiver_str rt s name val (object r) throw = elim ((s r).values name) [
  | some (prop q) ↦
      if q.accessor
      then refuse throw s
      else if not q.writable
      then refuse throw s
      else define_own_property_str rt r name (value_only val) throw s
  | some (plain _) ↦ define_own_property_str rt r name (value_only val) throw s
  | none ↦ define_own_property_str rt r name (all_attributes val) throw s
]
set_on_receiver_str rt s name val _ throw = refuse throw s

-- `setStr`
unfoldable pub set_str :
    Objects
    → ℕ
    → Store
    → (o name : ℕ) → (val receiver : Value) → (throw : Bool) → Option (Result Store)
unfolding set_own_str set_foreign_str set_on_receiver_str
set_str rt fuel s o name val receiver throw =
    if is_object receiver o
    then set_own_str fuel s o name val throw
    else unless_handled (set_on_receiver_str rt s name val receiver throw)
        (set_foreign_str fuel s o name val receiver throw)

-- Symbols: the same, but for the test on the receiver in `setForeignSym`.
abbrev pub add_own_sym : Store → (o sym : ℕ) → Value → (throw : Bool) → Result Store
add_own_sym s o sym val throw =
    if not (s o).extensible
    then refuse throw s
    else returned true (write_sym o sym (some (plain val)) s)

unfoldable mutual
  pub set_own_sym : ℕ → Store → (o sym : ℕ) → Value → (throw : Bool) → Option (Result Store)
  set_own_sym zero s o sym val throw = none
  set_own_sym (suc fuel) s o sym val throw = elim ((s o).sym_values sym) [
    | some (prop p) ↦ if not (is_writable p) then some (refuse throw s) else elim (set p val) [
      | done q ↦ some (returned true (write_sym o sym (some (prop q)) s))
      | calls f ↦ some (called (setter_call f (some (object o)) val) s)
    ]
    | some (plain _) ↦ some (returned true (write_sym o sym (some (plain val)) s))
    | none ↦ elim (s o).prototype [
      | none ↦ some (add_own_sym s o sym val throw)
      | some p ↦
          unless_handled (add_own_sym s o sym val throw)
            (set_foreign_sym fuel s p sym val (object o) throw)
    ]
  ]

  pub set_foreign_sym :
      ℕ → Store → (o sym : ℕ) → (val receiver : Value) → (throw : Bool) → Option Foreign
  set_foreign_sym zero s o sym val receiver throw = none
  set_foreign_sym (suc fuel) s o sym val receiver throw = elim ((s o).sym_values sym) [
    | some (prop p) ↦
        if not (is_writable p) then some (handled (refuse throw s)) else elim p.setter_func [
          | none ↦ some unhandled
          | some f ↦ some (handled (called (setter_call f (some receiver) val) s))
        ]
    | some (plain _) ↦ some unhandled
    | none ↦ elim (s o).prototype [
      | none ↦ some unhandled
      | some p ↦
          let own = handle (set_own_sym fuel s p sym val throw) in
          let foreign = set_foreign_sym fuel s p sym val receiver throw in
          if is_object receiver o then own else foreign
    ]
  ]

unfoldable pub set_on_receiver_sym :
    Objects → Store → (sym : ℕ) → (val receiver : Value) → (throw : Bool) → Result Store
unfolding define_own_property_sym
set_on_receiver_sym rt s sym val (object r) throw = elim ((s r).sym_values sym) [
  | some (prop q) ↦
      if q.accessor
      then refuse throw s
      else if not q.writable
      then refuse throw s
      else define_own_property_sym rt r sym (value_only val) throw s
  | some (plain _) ↦ define_own_property_sym rt r sym (value_only val) throw s
  | none ↦ define_own_property_sym rt r sym (all_attributes val) throw s
]
set_on_receiver_sym rt s sym val _ throw = refuse throw s

-- `setSym`
unfoldable pub set_sym :
    Objects
    → ℕ
    → Store
    → (o sym : ℕ) → (val receiver : Value) → (throw : Bool) → Option (Result Store)
unfolding set_own_sym set_foreign_sym set_on_receiver_sym
set_sym rt fuel s o sym val receiver throw =
    if is_object receiver o
    then set_own_sym fuel s o sym val throw
    else unless_handled (set_on_receiver_sym rt s sym val receiver throw)
        (set_foreign_sym fuel s o sym val receiver throw)
