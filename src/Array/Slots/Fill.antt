-- ===== src/Array/Slots/Fill.antt =====
-- `setValuesFromSparse` (array.go): each item is written to its slot.
use sobek.Base.{
  ℕ, ◌+◌, ◌≤◌, ◌<◌, List, [], ◌∷◌, Option, none, some, ◌≡◌, refl, arith, length, set, length-set,
  ◌∙◌,
}
use sobek.Property.{Slot}
use sobek.Array.Items.{Item, AllAbove, Sorted, lookup, idx_at}
use sobek.Array.Items.Insert.{lookup-above}
use sobek.Array.Items.Count.{All, count_props}
use sobek.Array.Slots.{slot_at, slot_at-set, count_slots, count_slots-set}

-- A write past the end does not occur.
unfoldable pub fill_values : List Item → List (Option Slot) → List (Option Slot)
fill_values [] values = values
fill_values (x ∷ xs) values = fill_values xs (set values x.idx (some x.value))

pub length-fill_values :
    (xs : List Item) (vs : List (Option Slot)) → length (fill_values xs vs) ≡ length vs
unfolding fill_values
length-fill_values [] vs = refl
length-fill_values (x ∷ xs) vs =
    omega (
      arith,
      length-fill_values xs (set vs x.idx (some x.value)),
      length-set vs x.idx (some x.value),
    )

All-length_set :
    (xs : List Item) (vs : List (Option Slot)) (i : ℕ) (v : Option Slot)
    → All (λ x. x.idx < length vs) xs
    → All (λ x. x.idx < length (set vs i v)) xs
All-length_set xs vs i v a = rw (length-set vs i v) a

-- Over sorted items each slot ends up with its item's value, if there is one.
pub slot_at-fill_values :
    (xs : List Item) (vs : List (Option Slot)) (j : ℕ)
    → Sorted xs
    → All (λ x. x.idx < length vs) xs
    → slot_at (fill_values xs vs) j ≡ elim (lookup j xs) [ some v ↦ some v | none ↦ slot_at vs j ]
unfolding fill_values
slot_at-fill_values [] vs j s a = refl
slot_at-fill_values (x ∷ xs) vs j s a =
    slot_at-fill_values xs (set vs x.idx (some x.value)) j s.1 (All-length_set xs vs x.idx _ a.1)
    ∙ ground (arith, lookup-above x.idx j xs s.0, slot_at-set vs x.idx j (some x.value) a.0)

still_none :
    (n : ℕ) (xs : List Item) (vs : List (Option Slot)) (v : Option Slot)
    → n < length vs
    → AllAbove n xs
    → All (λ x. slot_at vs x.idx ≡ none) xs
    → All (λ x. slot_at (set vs n v) x.idx ≡ none) xs
still_none n [] vs v lt a h = tt
still_none n (x ∷ xs) vs v lt a h =
    (ground (arith, slot_at-set vs n x.idx v lt), still_none n xs vs v lt a.1 h.1)

pub count_slots-fill_values :
    (xs : List Item) (vs : List (Option Slot))
    → Sorted xs
    → All (λ x. x.idx < length vs) xs
    → All (λ x. slot_at vs x.idx ≡ none) xs
    → count_slots (fill_values xs vs) ≡ count_slots vs + count_props xs
unfolding fill_values
count_slots-fill_values [] vs s a n = omega arith
count_slots-fill_values (x ∷ xs) vs s a n =
    let vs' = set vs x.idx (some x.value) in
    ground (
      arith,
      count_slots-fill_values xs vs' s.1 (All-length_set xs vs x.idx _ a.1)
          (still_none x.idx xs vs (some x.value) a.0 s.0 n.1),
      count_slots-set vs x.idx (some x.value) a.0,
      n.0,
    )

pub last-le :
    (x : Item) (xs : List Item)
    → Sorted (x ∷ xs)
    → All (λ y. y.idx ≤ idx_at (x ∷ xs) (length xs)) (x ∷ xs)
last-le x [] s = (omega arith, tt)
last-le x (y ∷ ys) s = let ih = last-le y ys s.1 in (omega (arith, ih.0, s.0.0), ih)
