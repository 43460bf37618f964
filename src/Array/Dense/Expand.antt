-- ===== src/Array/Dense/Expand.antt =====
-- Making room for an index in a dense array.
use sobek.Base.{
  ℕ, ◌+◌, ◌-◌, ◌≤◌, ◌<◌, Bool, true, false, ◌++◌, none, some, ◌≡◌, refl, arith, ltb, leb,
  if◌then◌else◌, length, ◌∙◌, Bool-cases, ◌⊎◌, inl, inr, replicate, length-append, length-replicate,
}
use sobek.Array.State.{DenseArray, returned, refuse}
use sobek.Array.Slots.{slot_at, slot_at-append_replicate, count_slots, count_slots-append_replicate}
use sobek.Array.Dense.{grow_loop, grow_cap, expand, is_scattered, reach, set_length_int}
use sobek.Array.Own.{ValidDense}

-- Four rounds of a quarter each more than double a capacity of 1024 or more.
grow_loop-le :
    (cap new_size : ℕ) → 1024 ≤ cap → new_size ≤ cap + cap → new_size ≤ grow_loop 4 cap new_size
unfolding grow_loop
grow_loop-le cap new_size big double = ground arith

-- The capacity that `growCap` gives has room for the new size, in four rounds of its loop at most,
-- where a slice of 1024 elements or more lies within its capacity.
pub le-grow_cap :
    (new_size old_size old_cap : ℕ)
    → old_size ≤ old_cap
    → new_size ≤ grow_cap new_size old_size old_cap
unfolding grow_cap
le-grow_cap new_size old_size old_cap le = elim (Bool-cases (ltb (old_cap + old_cap) new_size)) [
  | inl far ↦ rw far (omega arith)
  | inr near ↦ elim (Bool-cases (ltb old_size 1024)) [
    | inl small ↦ rw (near, small) (ground arith)
    | inr big ↦
        let enough : new_size ≤ grow_loop 4 old_cap new_size =
          grow_loop-le old_cap new_size (ground arith) (ground arith) in
        rw (near, big) (ground (arith, enough))
  ]
]

-- The array with room: the index is within its slots, and every slot is as it was.
pub record Expanded (idx : ℕ) (a b : DenseArray) : Type 0 where
  pub inside : idx < length b.values
  pub slots : (j : ℕ) → slot_at b.values j ≡ slot_at a.values j
  pub count : count_slots b.values ≡ count_slots a.values
  pub room : length b.values ≤ b.capacity
  pub within : idx < a.length → length b.values ≤ b.length
  pub length_kept : b.length ≡ a.length
  pub counter : b.prop_value_count ≡ a.prop_value_count

wide-Expanded :
    (idx cap : ℕ) (a : DenseArray)
    → ValidDense a
    → length a.values ≤ idx
    → idx + 1 ≤ cap
    → Expanded idx a (record a {
      values = a.values ++ replicate (idx + 1 - length a.values) none;
      capacity = cap;
    })
wide-Expanded idx cap a v out le =
    let n = idx + 1 - length a.values in
    let len : length (a.values ++ replicate n none) ≡ idx + 1 =
      length-append a.values (replicate n none) ∙ omega (arith, length-replicate {0} n none) in
    record {
      inside = omega (arith, len);
      slots = slot_at-append_replicate a.values n;
      count = count_slots-append_replicate a.values n;
      room = omega (arith, len);
      within = λ lt. omega (arith, len);
      length_kept = refl;
      counter = refl;
    }

pub expand_cases :
    (idx : ℕ) (a : DenseArray)
    → ValidDense a
    → ((b : DenseArray) × (expand idx a ≡ some b) × Expanded idx a b) ⊎ (expand idx a ≡ none)
unfolding expand
expand_cases idx a v = elim (Bool-cases (leb (idx + 1) (length a.values))) [
  | inl in' ↦ inl (
    a,
    simp in',
    record {
      inside = ground arith;
      slots = λ j. refl;
      count = refl;
      room = v.room;
      within = λ lt. v.within;
      length_kept = refl;
      counter = refl;
    },
  )
  | inr out ↦ elim (Bool-cases (ltb (idx + 1) a.capacity)) [
    | inl spare ↦
        inl (_, simp (out, spare), wide-Expanded idx a.capacity a v (ground arith) (ground arith))
    | inr full ↦ elim (Bool-cases (is_scattered idx a)) [
      | inl far ↦ inr (simp (out, full, far))
      | inr near ↦ inl (
        _,
        simp (out, full, near),
        wide-Expanded idx _ a v (ground arith)
            (le-grow_cap (idx + 1) (length a.values) a.capacity v.room),
      )
    ]
  ]
]

abbrev pub reached : ℕ → DenseArray → DenseArray
reached idx a = record a { length = if leb a.length idx then idx + 1 else a.length }

pub reach_cases :
    (idx : ℕ) (throw : Bool) (a : DenseArray)
    → ValidDense a
    → (reach idx throw a ≡ returned true (reached idx a))
      ⊎ (a.length ≤ idx) × (a.length_writable ≡ false) × (reach idx throw a ≡ refuse throw a)
unfolding reach set_length_int
reach_cases idx throw a v = elim (Bool-cases (leb a.length idx)) [
  | inr in' ↦ inl (simp in')
  | inl out ↦ elim (Bool-cases a.length_writable) [
    | inl y ↦ inl (ground (arith, v.within))
    | inr n ↦ inr (ground arith, n, ground arith)
  ]
]

pub reached-Valid : (idx : ℕ) (a : DenseArray) → ValidDense a → ValidDense (reached idx a)
reached-Valid idx a v = record {
  within = ground (arith, v.within);
  room = v.room;
  covers = v.covers;
}
