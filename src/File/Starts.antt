-- ===== src/File/Starts.antt =====
-- The line starts of a text, read off in one pass, and what `findNextLineStart` finds of them.
use sobek.Base.{
  Bool, ◌||◌, ℕ, zero, suc, ◌+◌, ◌-◌, ◌≤◌, ◌<◌, true, false, ◌&&◌, List, [], ◌∷◌, none, some, ◌≡◌,
  ◌⊎◌, inl, inr, refl, arith, ltb, ◌==◌, if◌then◌else◌, length, drop, ◌∙◌, Bool-cases,
}
use sobek.File.{starts_lf, ends_separator, find_next_line_start, later}

abbrev starts_with : List ℕ → List ℕ → Bool
starts_with [] s = true
starts_with (c ∷ cs) [] = false
starts_with (c ∷ cs) (b ∷ bs) = b == c && starts_with cs bs

-- The line terminators of ECMAScript in UTF-8: CR LF, LF, CR, U+2028 and U+2029.
abbrev cr_lf : List ℕ
cr_lf = 13 ∷ 10 ∷ []

abbrev lf : List ℕ
lf = 10 ∷ []

abbrev cr : List ℕ
cr = 13 ∷ []

abbrev line_separator : List ℕ
line_separator = 226 ∷ 128 ∷ 168 ∷ []

abbrev paragraph_separator : List ℕ
paragraph_separator = 226 ∷ 128 ∷ 169 ∷ []

-- The length of the line terminator at the head of a text, or 0.
unfoldable pub terminator : List ℕ → ℕ
terminator s =
    if starts_with cr_lf s
    then 2
    else if starts_with lf s || starts_with cr s
    then 1
    else if starts_with line_separator s || starts_with paragraph_separator s
    then 3
    else 0

-- The offsets just after a line terminator, in a text that begins at offset `o` and of which the
-- first `skip` bytes are the rest of a terminator.
unfoldable pub line_starts : (o skip : ℕ) → List ℕ → List ℕ
line_starts o skip [] = []
line_starts o (suc skip) (b ∷ bs) = line_starts (o + 1) skip bs
line_starts o zero (b ∷ bs) =
    let rest = line_starts (o + 1) (terminator (b ∷ bs) - 1) bs in
    if ltb 0 (terminator (b ∷ bs)) then (o + terminator (b ∷ bs)) ∷ rest else rest

pub line_starts-drop : (o k : ℕ) (s : List ℕ) → line_starts o k s ≡ line_starts (o + k) 0 (drop k s)
unfolding line_starts
line_starts-drop o zero s = let e : o + 0 ≡ o = omega arith in rw e refl
line_starts-drop o (suc k) [] = refl
line_starts-drop o (suc k) (b ∷ bs) =
    let e : o + suc k ≡ o + 1 + k = omega arith in rw e (line_starts-drop (o + 1) k bs)

-- What the search finds.
pub record Found (o : ℕ) (s : List ℕ) (p : ℕ) : Type 0 where
  pub positive : 0 < p
  pub inside : p ≤ length s
  pub starts : line_starts o 0 s ≡ ((o + p) ∷ line_starts (o + p) 0 (drop p s))

terminator-le : (b : ℕ) (bs : List ℕ) → terminator (b ∷ bs) ≤ suc (length bs)
unfolding terminator
terminator-le b [] = ground arith
terminator-le b (c ∷ []) = ground arith
terminator-le b (c ∷ d ∷ bs) = ground arith

find_next_line_start-terminator :
    (b : ℕ) (bs : List ℕ)
    → find_next_line_start (b ∷ bs) ≡ (
        if ltb 0 (terminator (b ∷ bs))
        then some (terminator (b ∷ bs))
        else later (find_next_line_start bs))
unfolding terminator find_next_line_start starts_lf ends_separator
find_next_line_start-terminator b [] = ground arith
find_next_line_start-terminator b (c ∷ []) = ground arith
find_next_line_start-terminator b (c ∷ d ∷ bs) = ground arith

line_starts_at :
    (o b : ℕ) (bs : List ℕ) (w : ℕ)
    → terminator (b ∷ bs) ≡ w
    → 0 < w
    → line_starts o 0 (b ∷ bs) ≡ ((o + w) ∷ line_starts (o + w) 0 (drop w (b ∷ bs)))
unfolding line_starts
line_starts_at o b bs zero e lt = absurd (omega arith)
line_starts_at o b bs (suc w) e lt =
    let q : o + suc w ≡ o + 1 + w = omega arith in
    let q' : suc w - 1 ≡ w = omega arith in
    let t : ltb 0 (suc w) ≡ true = ground arith in
    rw (e, q, q', t, line_starts-drop (o + 1) w bs) refl

line_starts_past :
    (o b : ℕ) (bs : List ℕ)
    → ltb 0 (terminator (b ∷ bs)) ≡ false
    → line_starts o 0 (b ∷ bs) ≡ line_starts (o + 1) 0 bs
unfolding line_starts
line_starts_past o b bs n = let e : terminator (b ∷ bs) - 1 ≡ 0 = ground arith in rw (n, e) refl

-- `findNextLineStart` finds the first line start after the head of the text, or else there is none.
pub find_next_line_start-Found :
    (o : ℕ) (s : List ℕ)
    → ((p : ℕ) × (find_next_line_start s ≡ some p) × Found o s p)
      ⊎ (find_next_line_start s ≡ none) × (line_starts o 0 s ≡ [])
find_next_line_start-Found o [] =
    inr (unfold find_next_line_start in refl, unfold line_starts in refl)
find_next_line_start-Found o (b ∷ bs) = elim (Bool-cases (ltb 0 (terminator (b ∷ bs)))) [
  | inl y ↦ inl (
    terminator (b ∷ bs),
    find_next_line_start-terminator b bs ∙ rw y,
    record {
      positive = ground arith;
      inside = terminator-le b bs;
      starts = line_starts_at o b bs (terminator (b ∷ bs)) refl (ground arith);
    },
  )
  | inr n ↦ elim (find_next_line_start-Found (o + 1) bs) [
    | inl (p, e, f) ↦ inl (
      suc p,
      find_next_line_start-terminator b bs ∙ rw (n, e),
      record {
        positive = omega arith;
        inside = omega (arith, f.inside);
        starts =
            let q : o + suc p ≡ o + 1 + p = omega arith in
            rw q (line_starts_past o b bs n ∙ f.starts);
      },
    )
    | inr (e, q) ↦
        inr (find_next_line_start-terminator b bs ∙ rw (n, e), line_starts_past o b bs n ∙ q)
  ]
]
