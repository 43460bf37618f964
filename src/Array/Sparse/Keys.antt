-- ===== src/Array/Sparse/Keys.antt =====
-- The indexes among the keys of a sparse array.
use sobek.Base.{
  member, ℕ, Bool, false, ◌||◌, List, [], ◌∷◌, Option, none, some, ◌≡◌, refl, arith, ◌==◌, ==→≡,
  Bool-cases, inl, inr, ◌∙◌,
}
use sobek.Property.{Slot}
use sobek.Array.Items.{Item, Sorted, lookup}
use sobek.Array.Items.Insert.{lookup-above}
use sobek.Array.Sparse.{index_keys, is_enumerable}

-- Whether the keys show a slot.
abbrev pub shows : (all : Bool) → Option Slot → Bool
shows all none = false
shows all (some v) = all || is_enumerable v

-- An index is among the keys of sorted items where it has an item, which is enumerable unless all
-- are asked for.
pub index_keys-lookup :
    (all : Bool) (k : ℕ) (xs : List Item)
    → Sorted xs
    → member k (index_keys all xs) ≡ shows all (lookup k xs)
unfolding index_keys
index_keys-lookup all k [] s = refl
index_keys-lookup all k (x ∷ xs) s =
    let ih = index_keys-lookup all k xs s.1 in
    elim (Bool-cases (all || is_enumerable x.value)) [
      | inl y ↦ rw y (elim (Bool-cases (x.idx == k)) [ inl e ↦ rw (e, y) refl | inr n ↦ rw n ih ])
      | inr h ↦ rw h (elim (Bool-cases (x.idx == k)) [
        | inl e ↦
            let gone : lookup k xs ≡ none =
              lookup-above x.idx k xs s.0 (omega (arith, ==→≡ x.idx k e)) in
            let hidden : member k (index_keys all xs) ≡ false = ih ∙ rw gone refl in
            rw (e, hidden, h) refl
        | inr n ↦ rw n ih
      ])
    ]
