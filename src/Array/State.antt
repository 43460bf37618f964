-- ===== src/Array/State.antt =====
-- The two representations of an array object, and the results of their operations.
-- A counter of Go's type `int` that is decremented is an integer; indexes and lengths are `uint32`
-- values below 2 ^ 32. A slot of the dense representation may be nil.
use sobek.Base.{
  ◌%◌, ◌^◌, ◌-◌, ◌≡◌, ℕ, zero, suc, ◌≤◌, Bool, true, false, List, Option, if◌then◌else◌, arith,
}
use sobek.Base.Int.{ℤ, pos, negsuc}
use sobek.Value.{Value}
use sobek.Property.{Slot, plain, prop}
use sobek.Array.Items.{Item}

pub record SparseArray : Type 0 where
  pub items : List Item
  pub length : ℕ
  pub prop_value_count : ℤ
  pub length_writable : Bool
  pub extensible : Bool

-- `capacity` is `cap(values)`; the backing array is nil beyond `len(values)`.
pub record DenseArray : Type 0 where
  pub values : List (Option Slot)
  pub capacity : ℕ
  pub length : ℕ
  pub obj_count : ℤ
  pub prop_value_count : ℤ
  pub length_writable : Bool
  pub extensible : Bool

-- What `val.self` is.
pub data ArrayObject : Type 0 where
  sparse : SparseArray → ArrayObject
  dense : DenseArray → ArrayObject

-- A call of a setter. `this` is missing where it is the array itself.
pub record SetterCall : Type 0 where
  pub setter : ℕ
  pub this : Option Value
  pub argument : Value

abbrev pub setter_call : ℕ → (this : Option Value) → (argument : Value) → SetterCall
setter_call f this argument = record { setter = f; this = this; argument = argument }

-- A return with a flag, a panic with a TypeError, or a call of a setter, which decides the rest.
pub data Result (A : Type 0) : Type 0 where
  returned : Bool → A → Result A
  threw : A → Result A
  called : SetterCall → A → Result A

-- `typeErrorResult(throw, ...)` and `return false`
abbrev pub refuse : {A : Type 0} → Bool → A → Result A
refuse throw a = if throw then threw a else returned false a

abbrev pub map_result : {A B : Type 0} → (A → B) → Result A → Result B
map_result f (returned b a) = returned b (f a)
map_result f (threw a) = threw (f a)
map_result f (called g a) = called g (f a)

abbrev pub inc : ℤ → ℤ
inc (pos n) = pos (suc n)
inc (negsuc zero) = pos 0
inc (negsuc (suc n)) = negsuc n

abbrev pub dec : ℤ → ℤ
dec (pos zero) = negsuc 0
dec (pos (suc n)) = pos n
dec (negsuc n) = negsuc (suc n)

-- `uint32(n)`
abbrev pub to_uint32 : ℤ → ℕ
to_uint32 (pos n) = n % 2 ^ 32
to_uint32 (negsuc n) = (2 ^ 32 - 1) - n % 2 ^ 32

abbrev pub is_positive : ℤ → Bool
is_positive (pos (suc n)) = true
is_positive _ = false

-- The counter is at least `n`.
abbrev pub Covers : ℤ → ℕ → Type 0
Covers (pos m) n = n ≤ m
Covers (negsuc m) n = ⊥

abbrev pub is_prop : Slot → Bool
is_prop (plain v) = false
is_prop (prop p) = true

-- The state that a result leaves.
abbrev pub state : {A : Type 0} → Result A → A
state (returned b a) = a
state (threw a) = a
state (called f a) = a

-- The operation reports success.
abbrev pub succeeds : {A : Type 0} → Result A → Bool
succeeds (returned b a) = b
succeeds _ = false

-- A slot that `delete` may take away, and one that it may not.
abbrev pub Removable : Slot → Type 0
Removable (plain v) = Unit
Removable (prop p) = p.configurable ≡ true

abbrev pub Frozen : Slot → Type 0
Frozen (plain v) = ⊥
Frozen (prop p) = p.configurable ≡ false

pub Covers-mono : (z : ℤ) (m n : ℕ) → m ≤ n → Covers z n → Covers z m
Covers-mono (pos k) m n le h = omega arith
Covers-mono (negsuc k) m n le h = h

pub Covers-dec : (z : ℤ) (n : ℕ) → Covers z (suc n) → Covers (dec z) n
Covers-dec (pos zero) n h = absurd (omega arith)
Covers-dec (pos (suc k)) n h = omega arith
Covers-dec (negsuc k) n h = h

pub Covers-inc : (z : ℤ) (n : ℕ) → Covers z n → Covers (inc z) (suc n)
Covers-inc (pos k) n h = omega arith
Covers-inc (negsuc k) n h = absurd h
