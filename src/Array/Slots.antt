-- ===== src/Array/Slots.antt =====
-- The slots of the dense representation: reading, writing, and the slots that stand for items.
pub mod Fill
use sobek.Base.{
  ℕ, zero, suc, ◌+◌, ◌-◌, ◌≤◌, ◌<◌, Bool, true, false, List, [], ◌∷◌, ◌++◌, Option, none, some, ◌≡◌,
  refl, arith, ltb, leb, ◌==◌, if◌then◌else◌, length, get_elem?, set, replicate, Bool-cases, inl,
  inr, length-set,
}
use sobek.Property.{Slot}
use sobek.Array.Items.{Item, AllAbove, Sorted, lookup}
use sobek.Array.Items.Count.{All, count_props}
use sobek.Array.State.{is_prop}

-- The content of a slot, nil past the end.
abbrev pub slot_at : List (Option Slot) → ℕ → Option Slot
slot_at [] k = none
slot_at (v ∷ vs) zero = v
slot_at (v ∷ vs) (suc k) = slot_at vs k

pub slot_at-set :
    (vs : List (Option Slot)) (i j : ℕ) (v : Option Slot)
    → i < length vs
    → slot_at (set vs i v) j ≡ (if i == j then v else slot_at vs j)
slot_at-set [] i j v lt = absurd (omega arith)
slot_at-set (x ∷ vs) zero zero v lt = ground arith
slot_at-set (x ∷ vs) zero (suc j) v lt = ground arith
slot_at-set (x ∷ vs) (suc i) zero v lt = ground arith
slot_at-set (x ∷ vs) (suc i) (suc j) v lt = ground (arith, slot_at-set vs i j v)

pub slot_at-replicate : (n j : ℕ) → slot_at (replicate n none) j ≡ none
slot_at-replicate zero j = refl
slot_at-replicate (suc n) zero = refl
slot_at-replicate (suc n) (suc j) = slot_at-replicate n j

-- Slots past the end of a list are nil, whatever nil slots stand behind it.
pub slot_at-append_replicate :
    (vs : List (Option Slot)) (n j : ℕ) → slot_at (vs ++ replicate n none) j ≡ slot_at vs j
slot_at-append_replicate [] n j = slot_at-replicate n j
slot_at-append_replicate (v ∷ vs) n zero = refl
slot_at-append_replicate (v ∷ vs) n (suc j) = slot_at-append_replicate vs n j

pub slot_at-of_ge : (vs : List (Option Slot)) (j : ℕ) → length vs ≤ j → slot_at vs j ≡ none
slot_at-of_ge [] j le = refl
slot_at-of_ge (v ∷ vs) zero le = absurd (omega arith)
slot_at-of_ge (v ∷ vs) (suc j) le = slot_at-of_ge vs j (omega arith)

-- How many slots hold a `valueProperty`.
abbrev pub slot_count : Option Slot → ℕ
slot_count none = 0
slot_count (some v) = if is_prop v then 1 else 0

abbrev pub count_slots : List (Option Slot) → ℕ
count_slots [] = 0
count_slots (v ∷ vs) = slot_count v + count_slots vs

pub count_slots-replicate : (n : ℕ) → count_slots (replicate n none) ≡ 0
count_slots-replicate zero = refl
count_slots-replicate (suc n) = omega (arith, count_slots-replicate n)

pub count_slots-set :
    (vs : List (Option Slot)) (i : ℕ) (v : Option Slot)
    → i < length vs
    → count_slots (set vs i v) + slot_count (slot_at vs i) ≡ count_slots vs + slot_count v
count_slots-set [] i v lt = absurd (omega arith)
count_slots-set (x ∷ vs) zero v lt = omega arith
count_slots-set (x ∷ vs) (suc i) v lt = omega (arith, count_slots-set vs i v (omega arith))

pub count_slots-append_replicate :
    (vs : List (Option Slot)) (n : ℕ) → count_slots (vs ++ replicate n none) ≡ count_slots vs
count_slots-append_replicate [] n = count_slots-replicate n
count_slots-append_replicate (v ∷ vs) n = omega (arith, count_slots-append_replicate vs n)
