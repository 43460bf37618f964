-- ===== src/Array/Dense/Cut.antt =====
-- The loop that looks for the slots a shorter length would cut off: where it stops, and why.
use mathlib.Core.List.{reverse, reverse_aux}
use sobek.Base.{
  ℕ, zero, suc, ◌+◌, ◌-◌, ◌≤◌, ◌<◌, Bool, true, false, List, [], ◌∷◌, ◌++◌, Option, none, some, ◌≡◌,
  inl, inr, refl, arith, ltb, leb, ◌==◌, if◌then◌else◌, length, length-append, take, ◌∙◌,
  Bool-cases, ltb→lt, ltb→ge, ◌&&◌,
}
use sobek.Base.Int.{ℤ, pos, negsuc}
use sobek.Property.{Slot, plain, prop, ValueProperty}
use sobek.Array.State.{
  DenseArray, Covers, Covers-mono, Covers-dec, Removable, Frozen, dec, is_positive,
}
use sobek.Array.Slots.{slot_at, slot_count, count_slots, slot_at-of_ge}
use sobek.Array.Dense.{cut_back}
use sobek.Array.Own.{ValidDense}

-- The list that is walked from its end.
forwards : List (Option Slot) → List (Option Slot)
forwards [] = []
forwards (x ∷ rest) = forwards rest ++ (x ∷ [])

append_cons :
    (vs ws : List (Option Slot)) (x : Option Slot) → (vs ++ (x ∷ [])) ++ ws ≡ vs ++ (x ∷ ws)
append_cons [] ws x = refl
append_cons (v ∷ vs) ws x = rw (append_cons vs ws x) refl

append_nil : (vs : List (Option Slot)) → vs ++ [] ≡ vs
append_nil [] = refl
append_nil (v ∷ vs) = rw (append_nil vs) refl

forwards-reverse_aux :
    (vs acc : List (Option Slot)) → forwards (reverse_aux vs acc) ≡ forwards acc ++ vs
unfolding forwards
forwards-reverse_aux [] acc = rw (append_nil (forwards acc)) refl
forwards-reverse_aux (v ∷ vs) acc =
    forwards-reverse_aux vs (v ∷ acc) ∙ append_cons (forwards acc) vs v

forwards-reverse : (vs : List (Option Slot)) → forwards (reverse vs) ≡ vs
unfolding forwards
forwards-reverse vs = forwards-reverse_aux vs []

length-forwards : (rs : List (Option Slot)) → length (forwards rs) ≡ length rs
unfolding forwards
length-forwards [] = refl
length-forwards (x ∷ rest) =
    omega (arith, length-append (forwards rest) (x ∷ []), length-forwards rest)

slot_at-append :
    (vs : List (Option Slot)) (x : Option Slot) (j : ℕ)
    → slot_at (vs ++ (x ∷ [])) j ≡ (if j == length vs then x else slot_at vs j)
slot_at-append [] x zero = refl
slot_at-append [] x (suc j) = ground arith
slot_at-append (v ∷ vs) x zero = ground arith
slot_at-append (v ∷ vs) x (suc j) = ground (arith, slot_at-append vs x j)

count_slots-take : (n : ℕ) (vs : List (Option Slot)) → count_slots (take n vs) ≤ count_slots vs
count_slots-take zero vs = omega arith
count_slots-take (suc n) [] = omega arith
count_slots-take (suc n) (v ∷ vs) = omega (arith, count_slots-take n vs)

count_slots-append :
    (vs : List (Option Slot)) (x : Option Slot)
    → count_slots (vs ++ (x ∷ [])) ≡ count_slots vs + slot_count x
count_slots-append [] x = omega arith
count_slots-append (v ∷ vs) x = omega (arith, count_slots-append vs x)

take-append :
    (n : ℕ) (vs : List (Option Slot)) (x : Option Slot)
    → n ≤ length vs
    → take n (vs ++ (x ∷ [])) ≡ take n vs
take-append zero vs x le = refl
take-append (suc n) [] x le = absurd (omega arith)
take-append (suc n) (v ∷ vs) x le = rw (take-append n vs x (omega arith)) refl

pub slot_at-take :
    (n : ℕ) (vs : List (Option Slot)) (j : ℕ)
    → slot_at (take n vs) j ≡ (if ltb j n then slot_at vs j else none)
slot_at-take zero vs j = ground arith
slot_at-take (suc n) [] j = ground arith
slot_at-take (suc n) (v ∷ vs) zero = ground arith
slot_at-take (suc n) (v ∷ vs) (suc j) = ground (arith, slot_at-take n vs j)

-- A nil slot, or one that may go.
abbrev pub Loose : Option Slot → Type 0
Loose none = Unit
Loose (some v) = Removable v

abbrev pub Stuck : Option Slot → Type 0
Stuck none = ⊥
Stuck (some v) = Frozen v

-- What the loop over the slots `vs` comes to.
pub record Cut (vs : List (Option Slot)) (l : ℕ) (r : ℕ × Bool × ℤ) : Type 0 where
  pub above : l ≤ r.0
  pub loose : (j : ℕ) → r.0 ≤ j → Loose (slot_at vs j)
  pub whole : r.1 ≡ true → r.0 ≡ l
  pub stopped : r.1 ≡ false → (l < r.0) × Stuck (slot_at vs (r.0 - 1))
  pub inside : l ≤ length vs → r.0 ≤ length vs
  pub covers : Covers r.2 (count_slots (take r.0 vs))

Loose-past : (vs : List (Option Slot)) (l j : ℕ) → length vs ≤ l → l ≤ j → Loose (slot_at vs j)
Loose-past vs l j le lj = rw (slot_at-of_ge vs j (omega arith)) tt

Cut-stop_lem :
    (vs : List (Option Slot)) (l : ℕ) (count : ℤ)
    → length vs ≤ l
    → Covers count (count_slots vs)
    → Cut vs l (l, true, count)
Cut-stop_lem vs l count le c = record {
  above = omega arith;
  loose = λ j lj. Loose-past vs l j le lj;
  whole = λ _. refl;
  stopped = λ e. cc;
  inside = λ h. h;
  covers = Covers-mono count _ _ (count_slots-take l vs) c;
}

-- The last slot goes, and the loop goes on with those before it.
Cut-on :
    (vs : List (Option Slot)) (x : Option Slot) (l : ℕ) (r : ℕ × Bool × ℤ)
    → l ≤ length vs
    → Loose x
    → Cut vs l r
    → Cut (vs ++ (x ∷ [])) l r
Cut-on vs x l r le h c = record {
  above = c.above;
  loose = λ j lj.
      rw (slot_at-append vs x j)
        (elim (Bool-cases (j == length vs)) [ inl y ↦ rw y h | inr n ↦ rw n (c.loose j lj) ]);
  whole = c.whole;
  stopped = λ e.
      let (lt, s) = c.stopped e in
      let inside = c.inside le in
      let n : (r.0 - 1 == length vs) ≡ false = ground arith in
      (lt, rw (slot_at-append vs x (r.0 - 1), n) s);
  inside = λ h'. omega (arith, c.inside le, length-append vs (x ∷ []));
  covers = rw (take-append r.0 vs x (c.inside le)) c.covers;
}

Cut-Stuck :
    (vs : List (Option Slot)) (x : Option Slot) (l : ℕ) (count : ℤ)
    → l ≤ length vs
    → Stuck x
    → Covers count (count_slots (vs ++ (x ∷ [])))
    → Cut (vs ++ (x ∷ [])) l (length vs + 1, false, count)
Cut-Stuck vs x l count le s c =
    let len = length-append vs (x ∷ []) in
    record {
      above = omega arith;
      loose = λ j lj. Loose-past (vs ++ (x ∷ [])) (length vs + 1) j (omega (arith, len)) lj;
      whole = λ e. cc;
      stopped = λ _.
          let y : (length vs + 1 - 1 == length vs) ≡ true = ground arith in
          (omega arith, rw (slot_at-append vs x (length vs + 1 - 1), y) s);
      inside = λ h. omega (arith, len);
      covers = Covers-mono count _ _ (count_slots-take (length vs + 1) (vs ++ (x ∷ []))) c;
    }

cut_back-Cut :
    (rs : List (Option Slot)) (l : ℕ) (count : ℤ)
    → Covers count (count_slots (forwards rs))
    → Cut (forwards rs) l (cut_back rs l count)
unfolding cut_back forwards
cut_back-Cut [] l count c = Cut-stop_lem [] l count (omega arith) c
cut_back-Cut (x ∷ rest) l count c = elim (Bool-cases (ltb (length rest) l)) [
  | inl lt ↦ rw lt (
      Cut-stop_lem (forwards rest ++ (x ∷ [])) l count
        (omega (
          arith,
          length-append (forwards rest) (x ∷ []),
          length-forwards rest,
          ltb→lt (length rest) l lt,
        ))
        c)
  | inr ge ↦ rw ge (
      by_slot x (rw (count_slots-append (forwards rest) x) at c)
        (rw (length-forwards rest) (ltb→ge (length rest) l ge)) (cut_back-Cut rest l))
]
  where
    by_slot :
        (y : Option Slot)
        → Covers count (count_slots (forwards rest) + slot_count y)
        → l ≤ length (forwards rest)
        → ((z : ℤ)
            → Covers z (count_slots (forwards rest))
            → Cut (forwards rest) l (cut_back rest l z))
        → Cut (forwards rest ++ (y ∷ [])) l (elim y [
          | none ↦ cut_back rest l count
          | some (plain _) ↦ cut_back rest l count
          | some (prop p) ↦
              if p.configurable
              then cut_back rest l (dec count)
              else (length rest + 1, false, count)
        ])
    by_slot none h le ih =
        Cut-on (forwards rest) none l _ le tt (ih count (Covers-mono count _ _ (omega arith) h))
    by_slot (some (plain u)) h le ih =
        Cut-on (forwards rest) (some (plain u)) l _ le tt
          (ih count (Covers-mono count _ _ (omega arith) h))
    by_slot (some (prop p)) h le ih = by_flag p p.configurable refl
      where
        by_flag :
            (p : ValueProperty) (b : Bool)
            → p.configurable ≡ b
            → Cut
                (forwards rest ++ (some (prop p) ∷ []))
                l
                (if b then cut_back rest l (dec count) else (length rest + 1, false, count))
        by_flag p true y =
            Cut-on (forwards rest) (some (prop p)) l _ le y
              (ih (dec count) (Covers-dec count _ (Covers-mono count _ _ (omega arith) h)))
        by_flag p false n = rw (← length-forwards rest) (
            Cut-Stuck (forwards rest) (some (prop p)) l count le n
              (rw (count_slots-append (forwards rest) (some (prop p))) h))

cut_back-reverse :
    (vs : List (Option Slot)) (l : ℕ) (count : ℤ)
    → Covers count (count_slots vs)
    → Cut vs l (cut_back (reverse vs) l count)
cut_back-reverse vs l count c =
    rw (forwards-reverse vs) at (cut_back-Cut (reverse vs) l count (rw (forwards-reverse vs) c))

plain_only :
    (z : ℤ) (vs : List (Option Slot)) (j : ℕ)
    → is_positive z ≡ false
    → Covers z (count_slots vs)
    → Loose (slot_at vs j)
plain_only z [] j p c = tt
plain_only z (none ∷ vs) zero p c = tt
plain_only z (some (plain u) ∷ vs) zero p c = tt
plain_only (pos zero) (some (prop q) ∷ vs) zero p c = absurd (omega arith)
plain_only (pos (suc k)) (some (prop q) ∷ vs) zero p c = absurd (cc)
plain_only (negsuc k) (some (prop q) ∷ vs) zero p c = absurd c
plain_only z (v ∷ vs) (suc j) p c = plain_only z vs j p (Covers-mono z _ _ (omega arith) c)

-- The length that `truncate` comes to, up to the flag.
pub Cut-values :
    (l : ℕ) (a : DenseArray)
    → ValidDense a
    → Cut a.values l (
        if leb l a.length && is_positive a.prop_value_count
        then cut_back (reverse a.values) l a.prop_value_count
        else (l, true, a.prop_value_count))
Cut-values l a w = elim (Bool-cases (leb l a.length)) [
  | inr far ↦
      rw far (Cut-stop_lem a.values l a.prop_value_count (ground (arith, w.within)) w.covers)
  | inl near ↦ elim (Bool-cases (is_positive a.prop_value_count)) [
    | inl slow ↦ rw (near, slow) (cut_back-reverse a.values l a.prop_value_count w.covers)
    | inr fast ↦
        rw (near, fast)
          (record {
            above = omega arith;
            loose = λ j lj. plain_only a.prop_value_count a.values j fast w.covers;
            whole = λ _. refl;
            stopped = λ e. cc;
            inside = λ h. h;
            covers = Covers-mono a.prop_value_count _ _ (count_slots-take l a.values) w.covers;
          })
  ]
]
