-- ===== src/Array/Dense/Switch.antt =====
-- The switch from the dense to the sparse representation keeps every slot.
use sobek.Base.{
  ℕ, zero, suc, ◌+◌, ◌≤◌, ◌<◌, List, [], ◌∷◌, Option, none, some, ◌≡◌, refl, arith, length,
}
use sobek.Property.{Slot}
use sobek.Array.Items.{AllAbove, Sorted, lookup}
use sobek.Array.Items.Count.{All, count_props}
use sobek.Array.Slots.{slot_at, count_slots}
use sobek.Array.State.{DenseArray}
use sobek.Array.Dense.{items_from, to_sparse}
use sobek.Array.Sparse.Cut.{WellFormed}
use sobek.Array.Own.{ValidDense}

AllAbove-items_from : (n i : ℕ) (vs : List (Option Slot)) → n < i → AllAbove n (items_from i vs)
unfolding items_from
AllAbove-items_from n i [] lt = tt
AllAbove-items_from n i (none ∷ vs) lt = AllAbove-items_from n (i + 1) vs (omega arith)
AllAbove-items_from n i (some v ∷ vs) lt = (lt, AllAbove-items_from n (i + 1) vs (omega arith))

pub items_from-Sorted : (i : ℕ) (vs : List (Option Slot)) → Sorted (items_from i vs)
unfolding items_from
items_from-Sorted i [] = tt
items_from-Sorted i (none ∷ vs) = items_from-Sorted (i + 1) vs
items_from-Sorted i (some v ∷ vs) =
    (AllAbove-items_from i (i + 1) vs (omega arith), items_from-Sorted (i + 1) vs)

lookup-items_from_below :
    (i j : ℕ) (vs : List (Option Slot)) → j < i → lookup j (items_from i vs) ≡ none
unfolding items_from
lookup-items_from_below i j [] lt = refl
lookup-items_from_below i j (none ∷ vs) lt = lookup-items_from_below (i + 1) j vs (omega arith)
lookup-items_from_below i j (some v ∷ vs) lt = ground (arith, lookup-items_from_below (i + 1) j vs)

pub lookup-items_from :
    (i k : ℕ) (vs : List (Option Slot)) → lookup (i + k) (items_from i vs) ≡ slot_at vs k
unfolding items_from
lookup-items_from i k [] = refl
lookup-items_from i zero (none ∷ vs) = lookup-items_from_below (i + 1) (i + 0) vs (omega arith)
lookup-items_from i (suc k) (none ∷ vs) =
    let e : i + suc k ≡ i + 1 + k = omega arith in rw e (lookup-items_from (i + 1) k vs)
lookup-items_from i zero (some v ∷ vs) = ground arith
lookup-items_from i (suc k) (some v ∷ vs) =
    let e : i + suc k ≡ i + 1 + k = omega arith in ground (arith, e, lookup-items_from (i + 1) k vs)

within-items_from :
    (i n : ℕ) (vs : List (Option Slot)) → i + length vs ≤ n → All (λ x. x.idx < n) (items_from i vs)
unfolding items_from
within-items_from i n [] le = tt
within-items_from i n (none ∷ vs) le = within-items_from (i + 1) n vs (omega arith)
within-items_from i n (some v ∷ vs) le = (omega arith, within-items_from (i + 1) n vs (omega arith))

count_props-items_from :
    (i : ℕ) (vs : List (Option Slot)) → count_props (items_from i vs) ≡ count_slots vs
unfolding items_from
count_props-items_from i [] = refl
count_props-items_from i (none ∷ vs) = omega (arith, count_props-items_from (i + 1) vs)
count_props-items_from i (some v ∷ vs) = omega (arith, count_props-items_from (i + 1) vs)

pub to_sparse-lookup : (j : ℕ) (a : DenseArray) → lookup j (to_sparse a).items ≡ slot_at a.values j
unfolding to_sparse
to_sparse-lookup j a = let e : 0 + j ≡ j = omega arith in rw e at (lookup-items_from 0 j a.values)

pub to_sparse-WellFormed : (a : DenseArray) → ValidDense a → WellFormed (to_sparse a)
unfolding to_sparse
to_sparse-WellFormed a v = record {
  sorted = items_from-Sorted 0 a.values;
  within = within-items_from 0 a.length a.values (omega (arith, v.within));
  covers = rw (count_props-items_from 0 a.values) v.covers;
}
