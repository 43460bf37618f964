-- ===== src/Array/Sparse/Set.antt =====
-- `_setOwnIdx` of a sparse array: what it stores, and that the array stays well formed.
use sobek.Base.{
  ℕ, ◌+◌, ◌≤◌, Bool, true, false, Option, none, some, ◌≡◌, ◌⊎◌, inl, inr, refl, arith, leb, ◌==◌,
  if◌then◌else◌, ◌∙◌, sym, Bool-cases, is_some,
}
use sobek.Value.{Value}
use sobek.Property.{Slot, plain, prop, set}
use sobek.Array.Items.{lookup, find_idx}
use sobek.Array.Items.Rank.{find_idx-rank}
use sobek.Array.Items.Change.{lookup-write_at, write_at-Sorted}
use sobek.Array.Items.Bounds.{take-rank-All, within_mono, within-write_at, count_props-write_at}
use sobek.Array.Items.Count.{count_props}
use sobek.Array.State.{SparseArray, ArrayObject, sparse, returned, refuse, is_prop, Covers-mono}
use sobek.Array.Sparse.{
  get_idx, set_own_idx, store_new, write_item, reach, set_length_int, truncate, cut_at,
}
use sobek.Array.Sparse.Cut.{WellFormed}
use sobek.Array.Sparse.Switch.{get_idx-lookup}
use sobek.Array.Sparse.Store.{store_new-own, store_new-IsValid}
use sobek.Array.Own.{own, IsValid}

-- The array with room for the index: its length is above it, and its items are the same.
abbrev pub reached : ℕ → SparseArray → SparseArray
reached idx a = record a { length = if leb a.length idx then idx + 1 else a.length }

reach_grow :
    (idx : ℕ) (throw : Bool) (a : SparseArray)
    → WellFormed a
    → a.length ≤ idx
    → truncate (idx + 1) throw a ≡ returned true (record a { length = idx + 1 })
unfolding truncate cut_at
reach_grow idx throw a w le =
    let far : leb (idx + 1) a.length ≡ false = ground arith in
    simp (
      far,
      find_idx-rank a.items (idx + 1) w.sorted,
      take-rank-All (idx + 1) a.items
          (within_mono a.length (idx + 1) a.items (omega arith) w.within),
    )

pub reach_cases :
    (idx : ℕ) (throw : Bool) (a : SparseArray)
    → WellFormed a
    → (reach idx throw a ≡ returned true (reached idx a))
      ⊎ (a.length ≤ idx) × (a.length_writable ≡ false) × (reach idx throw a ≡ refuse throw a)
unfolding reach set_length_int
reach_cases idx throw a w = elim (Bool-cases (leb a.length idx)) [
  | inr in' ↦ inl (simp in')
  | inl out ↦
      let ne : (idx + 1 == a.length) ≡ false = ground arith in
      elim (Bool-cases a.length_writable) [
        | inl y ↦ inl (ground (arith, reach_grow idx throw a w))
        | inr n ↦ inr (ground arith, n, ground arith)
      ]
]

pub reached-WellFormed : (idx : ℕ) (a : SparseArray) → WellFormed a → WellFormed (reached idx a)
reached-WellFormed idx a w = record {
  sorted = w.sorted;
  within = within_mono a.length _ a.items (ground arith) w.within;
  covers = w.covers;
}

-- What an assignment leaves in a slot that no setter guards.
abbrev pub stored : Option Slot → Value → Slot
stored (some (prop p)) v = prop (record p { value = some v })
stored _ v = plain v

pub write_item-own :
    (idx j : ℕ) (v : Slot) (a : SparseArray)
    → WellFormed a
    → is_some (lookup idx a.items) ≡ true
    → own j (sparse (write_item (find_idx a.items idx) v a))
      ≡ (if idx == j then some v else lookup j a.items)
write_item-own idx j v a w h =
    get_idx-lookup j (write_item (find_idx a.items idx) v a)
      (write_at-Sorted (find_idx a.items idx) v a.items w.sorted)
    ∙ rw (find_idx-rank a.items idx w.sorted) (lookup-write_at idx j v a.items w.sorted h)

write_item-WellFormed :
    (idx : ℕ) (u v : Slot) (a : SparseArray)
    → WellFormed a
    → lookup idx a.items ≡ some u
    → is_prop u ≡ is_prop v
    → WellFormed (write_item (find_idx a.items idx) v a)
write_item-WellFormed idx u v a w e p = record {
  sorted = write_at-Sorted (find_idx a.items idx) v a.items w.sorted;
  within = within-write_at a.length (find_idx a.items idx) v a.items w.within;
  covers = rw (find_idx-rank a.items idx w.sorted) (
      Covers-mono a.prop_value_count _ (count_props a.items)
        (ground (arith, count_props-write_at idx v u a.items e w.sorted)) w.covers);
}

-- A record of what a successful assignment did to an array.
pub record Assigned (idx : ℕ) (v : Slot) (a : SparseArray) (o : ArrayObject) : Type 0 where
  pub slots : (j : ℕ) → own j o ≡ (if idx == j then some v else get_idx j a)
  pub valid : IsValid o

store_new-Assigned :
    (idx : ℕ) (val : Value) (a : SparseArray)
    → WellFormed a
    → lookup idx a.items ≡ none
    → Assigned idx (plain val) a (store_new (find_idx a.items idx) idx (plain val) (reached idx a))
store_new-Assigned idx val a w n = record {
  slots = λ j.
      store_new-own idx (plain val) (reached idx a) (reached-WellFormed idx a w) j n
      ∙ rw (get_idx-lookup j a w.sorted);
  valid =
      store_new-IsValid idx (plain val) (reached idx a) (reached-WellFormed idx a w) n
        (ground arith) refl;
}

write_item-Assigned :
    (idx : ℕ) (u v : Slot) (a : SparseArray)
    → WellFormed a
    → lookup idx a.items ≡ some u
    → is_prop u ≡ is_prop v
    → Assigned idx v a (sparse (write_item (find_idx a.items idx) v a))
write_item-Assigned idx u v a w e p = record {
  slots = λ j. write_item-own idx j v a w (rw e) ∙ rw (get_idx-lookup j a w.sorted);
  valid = write_item-WellFormed idx u v a w e p;
}

-- An assignment to a well-formed sparse array, its counter covering its properties, that the prototype
-- chain does not handle and that reports success without calling a setter puts the value into the
-- slot with the index and leaves all others, also where the array becomes a dense one; the array
-- stays valid.
pub set_own_idx-Assigned :
    (idx : ℕ) (val : Value) (throw : Bool) (a : SparseArray) {o : ArrayObject}
    → WellFormed a
    → set_own_idx idx val throw none a ≡ returned true o
    → Assigned idx (stored (get_idx idx a) val) a o
unfolding set_own_idx set
set_own_idx-Assigned idx val throw a {o} w h = go (get_idx idx a) refl h
  where
    found : {u : Slot} → get_idx idx a ≡ some u → lookup idx a.items ≡ some u
    found e = sym (get_idx-lookup idx a w.sorted) ∙ e

    missing : get_idx idx a ≡ none → lookup idx a.items ≡ none
    missing e = sym (get_idx-lookup idx a w.sorted) ∙ e

    go :
        (u : Option Slot)
        → get_idx idx a ≡ u
        → set_own_idx idx val throw none a ≡ returned true o
        → Assigned idx (stored u val) a o
    go (some (plain x)) e k =
        let q : sparse (write_item (find_idx a.items idx) (plain val) a) ≡ o = ground arith in
        rw (← q) (write_item-Assigned idx (plain x) (plain val) a w (found e) refl)
    go (some (prop p)) e k =
        let v = prop (record p { value = some val }) in
        let q : sparse (write_item (find_idx a.items idx) v a) ≡ o = ground arith in
        rw (← q) (write_item-Assigned idx (prop p) v a w (found e) refl)
    go none e k = elim (reach_cases idx throw a w) [
      | inl r ↦
          let q : store_new (find_idx a.items idx) idx (plain val) (reached idx a) ≡ o =
            ground (arith, r) in
          rw (← q) (store_new-Assigned idx val a w (missing e))
      | inr (le, fixed, r) ↦ absurd (ground (arith, r))
    ]
