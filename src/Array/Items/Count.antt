-- ===== src/Array/Items/Count.antt =====
-- Predicates and counts over the items from the last one back.
use mathlib.Core.List.{reverse, reverse_aux}
use mathlib.Core.Path.{subst₂}
use sobek.Base.{
  ◌==◌, ==→≡, ℕ, ◌+◌, ◌≤◌, ◌<◌, List, [], ◌∷◌, ◌≡◌, arith, ltb, if◌then◌else◌, ◌&&◌, ◌⊎◌, inl, inr,
  Bool-cases,
}
use sobek.Array.Items.{Item, AllAbove, Sorted, lookup, Slot, suc, some}
use sobek.Array.State.{is_prop, Frozen}

module _ {ℓ} (P : Item → Type ℓ) where
  abbrev pub All : List Item → Type ℓ
  All [] = Unit
  All (x ∷ xs) = P x × All xs

  All-reverse_aux : (xs acc : List Item) → All xs → All acc → All (reverse_aux xs acc)
  All-reverse_aux [] acc h k = k
  All-reverse_aux (x ∷ xs) acc h k = All-reverse_aux xs (x ∷ acc) h.1 (h.0, k)

  All-of_reverse_aux : (xs acc : List Item) → All (reverse_aux xs acc) → All xs × All acc
  All-of_reverse_aux [] acc h = (tt, h)
  All-of_reverse_aux (x ∷ xs) acc h =
      let (a, b) = All-of_reverse_aux xs (x ∷ acc) h in ((b.0, a), b.1)

  pub All-of_reverse : (xs : List Item) → All (reverse xs) → All xs
  All-of_reverse xs h = (All-of_reverse_aux xs [] h).0

-- Each index is above all later ones.
abbrev pub AllBelow : ℕ → List Item → Type 0
AllBelow n = All (λ x. x.idx < n)

abbrev pub Descending : List Item → Type 0
Descending [] = Unit
Descending (x ∷ xs) = AllBelow x.idx xs × Descending xs

Descending-reverse_aux :
    (xs acc : List Item)
    → Sorted xs
    → Descending acc
    → All (λ y. AllBelow y.idx acc) xs
    → Descending (reverse_aux xs acc)
Descending-reverse_aux [] acc s d b = d
Descending-reverse_aux (x ∷ xs) acc s d b =
    Descending-reverse_aux xs (x ∷ acc) s.1 (b.0, d) (extend x xs acc s.0 b.1)
  where
    extend :
        (x : Item) (xs acc : List Item)
        → AllAbove x.idx xs
        → All (λ y. AllBelow y.idx acc) xs
        → All (λ y. AllBelow y.idx (x ∷ acc)) xs
    extend x [] acc a b = tt
    extend x (y ∷ ys) acc a b = ((a.0, b.0), extend x ys acc a.1 b.1)

empty_below : (xs : List Item) → All (λ y. AllBelow y.idx []) xs
empty_below [] = tt
empty_below (x ∷ xs) = (tt, empty_below xs)

pub Descending-reverse : (xs : List Item) → Sorted xs → Descending (reverse xs)
Descending-reverse xs s = Descending-reverse_aux xs [] s tt (empty_below xs)

-- How many items below `l` hold a `valueProperty`.
abbrev pub count_below : ℕ → List Item → ℕ
count_below l [] = 0
count_below l (x ∷ xs) = (if ltb x.idx l && is_prop x.value then 1 else 0) + count_below l xs

count_below-reverse_aux :
    (l : ℕ) (xs acc : List Item)
    → count_below l (reverse_aux xs acc) ≡ count_below l xs + count_below l acc
count_below-reverse_aux l [] acc = omega arith
count_below-reverse_aux l (x ∷ xs) acc = omega (arith, count_below-reverse_aux l xs (x ∷ acc))

pub count_below-reverse : (l : ℕ) (xs : List Item) → count_below l (reverse xs) ≡ count_below l xs
count_below-reverse l xs = omega (arith, count_below-reverse_aux l xs [])

abbrev pub count_props : List Item → ℕ
count_props [] = 0
count_props (x ∷ xs) = (if is_prop x.value then 1 else 0) + count_props xs

count_props-reverse_aux :
    (xs acc : List Item) → count_props (reverse_aux xs acc) ≡ count_props xs + count_props acc
count_props-reverse_aux [] acc = omega arith
count_props-reverse_aux (x ∷ xs) acc = omega (arith, count_props-reverse_aux xs (x ∷ acc))

pub count_props-reverse : (xs : List Item) → count_props (reverse xs) ≡ count_props xs
count_props-reverse xs = omega (arith, count_props-reverse_aux xs [])

pub count_below-le : (l : ℕ) (xs : List Item) → count_below l xs ≤ count_props xs
count_below-le l [] = omega arith
count_below-le l (x ∷ xs) = ground (arith, count_below-le l xs)

-- An item with index `n - 1` holds a property that is not configurable.
abbrev pub HasFrozen : ℕ → List Item → Type 0
HasFrozen n [] = ⊥
HasFrozen n (x ∷ xs) = ((x.idx + 1 ≡ n) × Frozen x.value) ⊎ HasFrozen n xs

HasFrozen-of_reverse_aux :
    (n : ℕ) (xs acc : List Item)
    → HasFrozen n (reverse_aux xs acc)
    → HasFrozen n xs ⊎ HasFrozen n acc
HasFrozen-of_reverse_aux n [] acc h = inr h
HasFrozen-of_reverse_aux n (x ∷ xs) acc h = elim (HasFrozen-of_reverse_aux n xs (x ∷ acc) h) [
  | inl a ↦ inl (inr a)
  | inr (inl b) ↦ inl (inl b)
  | inr (inr c) ↦ inr c
]

pub HasFrozen-of_reverse : (n : ℕ) (xs : List Item) → HasFrozen n (reverse xs) → HasFrozen n xs
HasFrozen-of_reverse n xs h = elim (HasFrozen-of_reverse_aux n xs [] h) [
  | inl a ↦ a
  | inr b ↦ absurd b
]

HasFrozen-above : (n m : ℕ) (xs : List Item) → AllAbove m xs → HasFrozen n xs → suc m < n
HasFrozen-above n m [] a h = absurd h
HasFrozen-above n m (x ∷ xs) a (inl b) = omega (arith, b.0)
HasFrozen-above n m (x ∷ xs) a (inr h) = HasFrozen-above n m xs a.1 h

pub HasFrozen-lookup :
    (n : ℕ) (xs : List Item)
    → Sorted xs
    → HasFrozen (suc n) xs
    → (v : Slot) × (lookup n xs ≡ some v) × Frozen v
HasFrozen-lookup n [] s h = absurd h
HasFrozen-lookup n (x ∷ xs) s (inl b) = (x.value, ground (arith, b.0), b.1)
HasFrozen-lookup n (x ∷ xs) s (inr h) =
    let (v, e, f) = HasFrozen-lookup n xs s.1 h in
    let lt = HasFrozen-above (suc n) x.idx xs s.0 h in (v, ground (arith, e, lt), f)

pub lookup-All {ℓ} :
    (P : ℕ → Slot → Type ℓ) (j : ℕ) (xs : List Item) {v : Slot}
    → All (λ x. P x.idx x.value) xs
    → lookup j xs ≡ some v
    → P j v
lookup-All P j [] a e = absurd (cc)
lookup-All P j (x ∷ xs) {v} a e = elim (Bool-cases (x.idx == j)) [
  | inl y ↦ let at : x.value ≡ v = ground arith in subst₂ P (==→≡ x.idx j y) at a.0
  | inr n ↦ lookup-All P j xs a.1 (rw n at e)
]
