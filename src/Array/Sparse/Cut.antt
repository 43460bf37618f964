-- ===== src/Array/Sparse/Cut.antt =====
-- The loop that looks for the items a shorter length would cut off: where it stops, and why.
use mathlib.Core.List.{reverse}
use sobek.Base.{
  ◌&&◌, ℕ, zero, suc, ◌+◌, ◌≤◌, ◌<◌, Bool, true, false, List, [], ◌∷◌, ◌≡◌, refl, arith, ltb, leb,
  if◌then◌else◌, Bool-cases, inl, inr, ltb→lt, ltb→ge,
}
use sobek.Base.Int.{ℤ, pos, negsuc}
use sobek.Property.{Slot, plain, prop}
use sobek.Array.Items.{Item, Sorted}
use sobek.Array.Items.Count.{
  HasFrozen-of_reverse, All, All-of_reverse, AllBelow, Descending, Descending-reverse, count_below,
  count_below-reverse, count_props, count_props-reverse, count_below-le, HasFrozen,
  HasFrozen-of_reverse,
}
use sobek.Array.State.{
  Covers-mono, Covers-dec, SparseArray, dec, is_positive, Covers, Removable, Frozen,
}
use sobek.Array.Sparse.{cut_back, is_prop}

-- What the loop over descending items comes to.
record Cut (rs : List Item) (l : ℕ) (r : ℕ × Bool × ℤ) : Type 0 where
  above : l ≤ r.0
  removable : All (λ x. r.0 ≤ x.idx → Removable x.value) rs
  whole : r.1 ≡ true → r.0 ≡ l
  stopped : r.1 ≡ false → (l < r.0) × HasFrozen r.0 rs
  below : (n : ℕ) → AllBelow n rs → l ≤ n → r.0 ≤ n
  covers : Covers r.2 (count_below r.0 rs)

none_above :
    (n l : ℕ) (ys : List Item) → AllBelow n ys → n ≤ l → All (λ y. l ≤ y.idx → Removable y.value) ys
none_above n l [] b h = tt
none_above n l (y ∷ ys) b h = (λ le. absurd (omega arith), none_above n l ys b.1 h)

Cut-stop_lem :
    (x : Item) (rs : List Item) (l : ℕ) (count : ℤ)
    → Descending (x ∷ rs)
    → Covers count (count_props (x ∷ rs))
    → x.idx < l
    → Cut (x ∷ rs) l (l, true, count)
Cut-stop_lem x rs l count d c lt = record {
  above = omega arith;
  removable = (λ le. absurd (omega arith), none_above x.idx l rs d.0 (omega arith));
  whole = λ _. refl;
  stopped = λ e. cc;
  below = λ n b le. le;
  covers = Covers-mono count _ _ (count_below-le l (x ∷ rs)) c;
}

Cut-Frozen :
    (x : Item) (rs : List Item) (l : ℕ) (count : ℤ)
    → Descending (x ∷ rs)
    → Covers count (count_props (x ∷ rs))
    → l ≤ x.idx
    → Frozen x.value
    → Cut (x ∷ rs) l (x.idx + 1, false, count)
Cut-Frozen x rs l count d c le f = record {
  above = omega arith;
  removable = (λ h. absurd (omega arith), none_above x.idx (x.idx + 1) rs d.0 (omega arith));
  whole = λ e. cc;
  stopped = λ _. (omega arith, inl (refl, f));
  below = λ n b h. omega arith;
  covers = Covers-mono count _ _ (count_below-le (x.idx + 1) (x ∷ rs)) c;
}

Cut-on :
    (x : Item) (rs : List Item) (l : ℕ) (r : ℕ × Bool × ℤ)
    → Descending (x ∷ rs)
    → l ≤ x.idx
    → Removable x.value
    → Cut rs l r
    → Cut (x ∷ rs) l r
Cut-on x rs l r d le rem c = record {
  above = c.above;
  removable = (λ _. rem, c.removable);
  whole = c.whole;
  stopped = λ e. let (lt, h) = c.stopped e in (lt, inr h);
  below = λ n b h. c.below n b.1 h;
  covers = Covers-mono r.2 _ _ (ground (arith, c.below x.idx d.0 le)) c.covers;
}

cut_back-Cut :
    (rs : List Item) (l : ℕ) (count : ℤ)
    → Descending rs
    → Covers count (count_props rs)
    → Cut rs l (cut_back rs l count)
unfolding cut_back
cut_back-Cut [] l count d c = record {
  above = omega arith;
  removable = tt;
  whole = λ _. refl;
  stopped = λ e. cc;
  below = λ n b le. le;
  covers = c;
}
cut_back-Cut (x ∷ rs) l count d c = elim (Bool-cases (ltb x.idx l)) [
  | inl lt ↦ rw lt (Cut-stop_lem x rs l count d c (ltb→lt x.idx l lt))
  | inr ge ↦ rw ge (by_value x.value refl (ltb→ge x.idx l ge) (cut_back-Cut rs l))
]
  where
    by_value :
        (v : Slot)
        → x.value ≡ v
        → l ≤ x.idx
        → ((z : ℤ) → Descending rs → Covers z (count_props rs) → Cut rs l (cut_back rs l z))
        → Cut (x ∷ rs) l (elim v [
          | plain _ ↦ cut_back rs l count
          | prop p ↦ if p.configurable then cut_back rs l (dec count) else (x.idx + 1, false, count)
        ])
    by_value (plain u) e le ih =
        Cut-on x rs l _ d le (rw e tt) (ih count d.1 (Covers-mono count _ _ (omega arith) c))
    by_value (prop p) e le ih = elim (Bool-cases p.configurable) [
      | inl y ↦ rw y (
          Cut-on x rs l _ d le (rw e y) (
            ih (dec count) d.1 (
              Covers-dec count _ (
                Covers-mono count (suc (count_props rs)) (1 + count_props rs) (omega arith)
                  (rw e at c)))))
      | inr n ↦ rw n (Cut-Frozen x rs l count d c le (rw e n))
    ]

pub record WellFormed (a : SparseArray) : Type 0 where
  pub sorted : Sorted a.items
  pub within : All (λ x. x.idx < a.length) a.items
  pub covers : Covers a.prop_value_count (count_props a.items)

-- The loop as `truncate` makes it, over the items in their order.
pub record CutOff (xs : List Item) (l : ℕ) (r : ℕ × Bool × ℤ) : Type 0 where
  pub above : l ≤ r.0
  pub removable : All (λ x. r.0 ≤ x.idx → Removable x.value) xs
  pub whole : r.1 ≡ true → r.0 ≡ l
  pub stopped : r.1 ≡ false → (l < r.0) × HasFrozen r.0 xs
  pub covers : Covers r.2 (count_below r.0 xs)

cut_back-CutOff :
    (xs : List Item) (l : ℕ) (count : ℤ)
    → Sorted xs
    → Covers count (count_props xs)
    → CutOff xs l (cut_back (reverse xs) l count)
cut_back-CutOff xs l count s c = record {
  above = cut.above;
  removable =
      All-of_reverse (λ x. (cut_back (reverse xs) l count).0 ≤ x.idx → Removable x.value) xs
        cut.removable;
  whole = cut.whole;
  stopped = λ e. let (lt, h) = cut.stopped e in (lt, HasFrozen-of_reverse _ xs h);
  covers = rw (← count_below-reverse (cut_back (reverse xs) l count).0 xs) cut.covers;
}
  where
    cut : Cut (reverse xs) l (cut_back (reverse xs) l count)
    cut =
        cut_back-Cut (reverse xs) l count (Descending-reverse xs s) (rw (count_props-reverse xs) c)

plain-Removable :
    (z : ℤ) (v : Slot) (n : ℕ)
    → is_positive z ≡ false
    → Covers z ((if is_prop v then 1 else 0) + n)
    → Removable v
plain-Removable z (plain u) n p c = tt
plain-Removable (pos zero) (prop q) n p c = absurd (omega arith)
plain-Removable (pos (suc k)) (prop q) n p c = absurd (cc)
plain-Removable (negsuc k) (prop q) n p c = absurd c

no_props :
    (z : ℤ) (xs : List Item) (l : ℕ)
    → is_positive z ≡ false
    → Covers z (count_props xs)
    → All (λ x. l ≤ x.idx → Removable x.value) xs
no_props z [] l p c = tt
no_props z (x ∷ xs) l p c =
    (λ _. plain-Removable z x.value _ p c, no_props z xs l p (Covers-mono z _ _ (omega arith) c))

past_end :
    (n l : ℕ) (xs : List Item)
    → n < l
    → All (λ x. x.idx < n) xs
    → All (λ x. l ≤ x.idx → Removable x.value) xs
past_end n l [] h a = tt
past_end n l (x ∷ xs) h a = (λ le. absurd (omega arith), past_end n l xs h a.1)

-- What `truncate` keeps, up to the flag.
pub cut_items :
    (l : ℕ) (a : SparseArray)
    → WellFormed a
    → CutOff a.items l (
        if leb l a.length && is_positive a.prop_value_count
        then cut_back (reverse a.items) l a.prop_value_count
        else (l, true, a.prop_value_count))
cut_items l a w = elim (Bool-cases (leb l a.length)) [
  | inr far ↦ rw far (whole_cut (past_end a.length l a.items (ground arith) w.within))
  | inl near ↦ elim (Bool-cases (is_positive a.prop_value_count)) [
    | inl slow ↦ rw (near, slow) (cut_back-CutOff a.items l a.prop_value_count w.sorted w.covers)
    | inr fast ↦ rw (near, fast) (whole_cut (no_props a.prop_value_count a.items l fast w.covers))
  ]
]
  where
    whole_cut :
        All (λ x. l ≤ x.idx → Removable x.value) a.items
        → CutOff a.items l (l, true, a.prop_value_count)
    whole_cut r = record {
      above = omega arith;
      removable = r;
      whole = λ _. refl;
      stopped = λ e. cc;
      covers = Covers-mono a.prop_value_count _ _ (count_below-le l a.items) w.covers;
    }
