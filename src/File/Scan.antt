-- ===== src/File/Scan.antt =====
-- The scan for further line starts, and the cache that it leaves.
use sobek.Base.{
  ℕ, zero, suc, ◌+◌, ◌-◌, ◌≤◌, ◌<◌, true, false, List, [], ◌∷◌, ◌++◌, ◌≡◌, inl, inr, refl, arith,
  ltb, if◌then◌else◌, length, length-append, length-drop, drop, ◌∙◌, Bool-cases,
}
use sobek.File.{Scanned, scan_stop, scan_loop}
use sobek.File.Starts.{line_starts, Found, find_next_line_start-Found, terminator}
use sobek.File.Find.{
  AllLe, AllGt, AllLe-mono, AllLe-append, Ascending, Ascending-append, count_le, count_le-of_le,
  count_le-of_gt, count_le-append,
}

-- The offsets found when the scan has gone as far as `o`: the line starts up to there.
pub record Cached (src : List ℕ) (o : ℕ) (offsets : List ℕ) : Type 0 where
  pub split : line_starts 0 0 src ≡ offsets ++ line_starts o 0 (drop o src)
  pub below : AllLe o offsets
  pub ascending : Ascending offsets
  pub inside : o ≤ length src

pub AllGt-line_starts : (n o k : ℕ) (s : List ℕ) → n ≤ o → AllGt n (line_starts o k s)
unfolding line_starts
AllGt-line_starts n o k [] le = tt
AllGt-line_starts n o (suc k) (b ∷ bs) le = AllGt-line_starts n (o + 1) k bs (omega arith)
AllGt-line_starts n o zero (b ∷ bs) le =
    at_head (terminator (b ∷ bs)) _
      (AllGt-line_starts n (o + 1) (terminator (b ∷ bs) - 1) bs (omega arith))
  where
    at_head : (w : ℕ) (xs : List ℕ) → AllGt n xs → AllGt n (if ltb 0 w then (o + w) ∷ xs else xs)
    at_head w xs r = elim (Bool-cases (ltb 0 w)) [
      | inl y ↦ rw y (ground arith, r)
      | inr no' ↦ rw no' r
    ]

-- Past the offsets found, no line starts before the scan's reach.
pub count_le-Cached :
    (src : List ℕ) (offset o : ℕ) (offsets : List ℕ)
    → Cached src o offsets
    → offset ≤ o
    → count_le offset (line_starts 0 0 src) ≡ count_le offset offsets
count_le-Cached src offset o offsets c le =
    let above : count_le offset (line_starts o 0 (drop o src)) ≡ 0 =
      count_le-of_gt offset _ (AllGt-line_starts offset o 0 (drop o src) le) in
    rw c.split (count_le-append offset offsets _ ∙ rw above (omega arith))

append_cons : (xs ys : List ℕ) (x : ℕ) → xs ++ (x ∷ ys) ≡ (xs ++ (x ∷ [])) ++ ys
append_cons [] ys x = refl
append_cons (z ∷ zs) ys x = rw (append_cons zs ys x) refl

drop-nil : (n : ℕ) → drop {A = ℕ} n [] ≡ []
drop-nil zero = refl
drop-nil (suc n) = refl

drop-length : (xs : List ℕ) → drop (length xs) xs ≡ []
drop-length [] = refl
drop-length (x ∷ xs) = drop-length xs

drop-drop : (m n : ℕ) (xs : List ℕ) → drop m (drop n xs) ≡ drop (n + m) xs
drop-drop m zero xs = ground arith
drop-drop m (suc n) [] = rw (drop-nil m, drop-nil (suc n + m)) refl
drop-drop m (suc n) (x ∷ xs) =
    let e : suc n + m ≡ suc (n + m) = omega arith in rw e (drop-drop m n xs)

Cached-step :
    (src : List ℕ) (o p : ℕ) (offsets : List ℕ)
    → Cached src o offsets
    → Found o (drop o src) p
    → Cached src (o + p) (offsets ++ ((o + p) ∷ []))
Cached-step src o p offsets c f = record {
  split = rw (c.split, f.starts, drop-drop p o src) (append_cons offsets _ (o + p));
  below =
      AllLe-append (o + p) offsets (o + p) (AllLe-mono o (o + p) offsets (omega arith) c.below)
        (omega arith);
  ascending = Ascending-append o offsets (o + p) c.ascending c.below (omega (arith, f.positive));
  inside = omega (arith, f.inside, length-drop o src, c.inside);
}

Cached-end :
    (src : List ℕ) (o : ℕ) (offsets : List ℕ)
    → Cached src o offsets
    → line_starts o 0 (drop o src) ≡ []
    → Cached src (length src) offsets
Cached-end src o offsets c e = record {
  split = rw (drop-length src, c.split, e) (unfold line_starts in refl);
  below = AllLe-mono o (length src) offsets c.inside c.below;
  ascending = c.ascending;
  inside = omega arith;
}

-- What the scan comes to: the cache is right, and the line is counted by all line starts.
pub record Counted (src : List ℕ) (offset : ℕ) (s : Scanned) : Type 0 where
  pub cached : Cached src s.reached s.offsets
  pub lines : s.lines ≡ count_le offset (line_starts 0 0 src)
  pub known : s.lines ≤ length s.offsets

scan_stop-Counted :
    (src : List ℕ) (offset o p : ℕ) (offsets : List ℕ)
    → Cached src o offsets
    → o < offset
    → offset ≤ o + p
    → Found o (drop o src) p
    → Counted src offset (scan_stop offset (o + p) (offsets ++ ((o + p) ∷ [])))
unfolding scan_stop
scan_stop-Counted src offset o p offsets c lt le f =
    let c' = Cached-step src o p offsets c f in
    let n = count_le-Cached src offset (o + p) _ c' le in
    let a = count_le-append offset offsets ((o + p) ∷ []) in
    let b = count_le-of_le offset offsets (AllLe-mono o offset offsets (omega arith) c.below) in
    let l = length-append offsets ((o + p) ∷ []) in
    record { cached = c'; lines = ground (arith, n, a, b, l); known = ground (arith, l) }

scan_end-Counted :
    (src : List ℕ) (offset o : ℕ) (offsets : List ℕ)
    → Cached src o offsets
    → o < offset
    → line_starts o 0 (drop o src) ≡ []
    → Counted src offset
        (record { lines = length offsets; offsets = offsets; reached = length src })
scan_end-Counted src offset o offsets c lt e =
    let a = count_le-append offset offsets (line_starts o 0 (drop o src)) in
    let b = count_le-of_le offset offsets (AllLe-mono o offset offsets (omega arith) c.below) in
    record {
      cached = Cached-end src o offsets c e;
      lines = rw (c.split, a, b, e) (omega arith);
      known = omega arith;
    }

scan_loop_done :
    (fuel : ℕ) (src : List ℕ) (offset o : ℕ) (offsets : List ℕ)
    → offset ≤ o
    → scan_loop fuel src offset o offsets ≡ scan_stop offset o offsets
unfolding scan_loop
scan_loop_done zero src offset o offsets le = refl
scan_loop_done (suc fuel) src offset o offsets le =
    let e : ltb o offset ≡ false = ground arith in rw e refl

-- As many rounds as there are offsets to go are enough.
pub scan_loop-Counted :
    (fuel : ℕ) (src : List ℕ) (offset o : ℕ) (offsets : List ℕ)
    → Cached src o offsets
    → o < offset
    → offset ≤ o + fuel
    → Counted src offset (scan_loop fuel src offset o offsets)
unfolding scan_loop
scan_loop-Counted zero src offset o offsets c lt enough = absurd (omega arith)
scan_loop-Counted (suc fuel) src offset o offsets c lt enough =
    let go : ltb o offset ≡ true = ground arith in
    elim (find_next_line_start-Found o (drop o src)) [
      | inr (e, none_left) ↦ rw (go, e) (scan_end-Counted src offset o offsets c lt none_left)
      | inl (p, e, f) ↦
          rw (go, e)
            (elim (Bool-cases (ltb (o + p) offset)) [
              | inl more ↦
                  scan_loop-Counted fuel src offset (o + p) _ (Cached-step src o p offsets c f)
                    (ground arith) (omega (arith, f.positive))
              | inr done ↦
                  rw
                    (scan_loop_done fuel src offset (o + p) (offsets ++ ((o + p) ∷ []))
                      (ground arith))
                    (scan_stop-Counted src offset o p offsets c lt (ground arith) f)
            ])
    ]
