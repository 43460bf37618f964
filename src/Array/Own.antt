-- ===== src/Array/Own.antt =====
-- An array's own slots and its invariant, in either representation.
use sobek.Base.{ℕ, ◌≤◌, Option, length}
use sobek.Property.{Slot}
use sobek.Array.State.{DenseArray, ArrayObject, sparse, dense, Covers}
use sobek.Array.Slots.{count_slots}
use sobek.Array.Sparse.Cut.{WellFormed}
use sobek.Array.Sparse
use sobek.Array.Dense

abbrev pub own : ℕ → ArrayObject → Option Slot
own j (sparse a) = Sparse.get_idx j a
own j (dense d) = Dense.get_idx j d

pub record ValidDense (d : DenseArray) : Type 0 where
  pub within : length d.values ≤ d.length
  pub room : length d.values ≤ d.capacity
  pub covers : Covers d.prop_value_count (count_slots d.values)

abbrev pub IsValid : ArrayObject → Type 0
IsValid (sparse a) = WellFormed a
IsValid (dense d) = ValidDense d
