-- ===== src/File/Place.antt =====
-- `File.Position` against all line starts of the text.
use sobek.Base.{
  ℕ, zero, suc, ◌+◌, ◌-◌, ◌≤◌, ◌<◌, true, List, [], ◌∷◌, ◌++◌, ◌≡◌, refl, arith, ltb, if◌then◌else◌,
  length, drop, ◌∙◌, sym, Bool-cases, inl, inr, ltb→ge, ltb→lt,
}
use sobek.File.{File, scan_to, place, position, offset_at, mapped}
use sobek.File.Starts.{line_starts, line_starts-drop, terminator}
use sobek.File.Find.{
  Ascending, count_le, count_le-le, begins, begins-le, offset_at-append, find_line-count_le,
}
use sobek.File.Scan.{Cached, Counted, AllGt-line_starts, scan_loop-Counted, count_le-Cached}

-- The cache of a file is right.
abbrev pub IsValid : File → Type 0
IsValid fl = Cached fl.src fl.last_scanned_offset fl.line_offsets

-- The place of an offset in a text: a row counts the line starts up to it, and a column counts from
-- the last of them, or from the beginning of the text.
abbrev pub row_of : List ℕ → ℕ → ℕ
row_of src offset = count_le offset (line_starts 0 0 src) + 1

abbrev pub col_of : List ℕ → ℕ → ℕ
col_of src offset =
    offset - begins (line_starts 0 0 src) (count_le offset (line_starts 0 0 src)) + 1

begins-append : (xs ys : List ℕ) (k : ℕ) → k ≤ length xs → begins (xs ++ ys) k ≡ begins xs k
begins-append xs ys zero le = refl
begins-append xs ys (suc k) le = offset_at-append xs ys k (omega arith)

line_start-begins :
    (k : ℕ) (xs : List ℕ) → (if ltb 0 k then offset_at xs (k - 1) else 0) ≡ begins xs k
line_start-begins zero xs = refl
line_start-begins (suc k) xs =
    let e : ltb 0 (suc k) ≡ true = ground arith in
    let q : suc k - 1 ≡ k = omega arith in rw (e, q) refl

place-mapped :
    (fl : File) (lines offset o : ℕ) (offsets : List ℕ)
    → Cached fl.src o offsets
    → lines ≡ count_le offset (line_starts 0 0 fl.src)
    → lines ≤ length offsets
    → place lines offset offsets fl ≡ mapped fl (row_of fl.src offset) (col_of fl.src offset)
unfolding place
place-mapped fl lines offset o offsets c e le =
    let b : begins (line_starts 0 0 fl.src) lines ≡ begins offsets lines =
      rw c.split (begins-append offsets _ lines le) in
    rw (← e, b, place, line_start-begins lines offsets) refl

scan_to-Counted :
    (offset : ℕ) (fl : File)
    → IsValid fl
    → fl.last_scanned_offset < offset
    → Counted fl.src offset (scan_to offset fl)
unfolding scan_to
scan_to-Counted offset fl v lt =
    scan_loop-Counted offset fl.src offset fl.last_scanned_offset fl.line_offsets v lt (omega arith)

-- Whatever part of a file has been scanned before, the position of an offset is that by all line
-- starts of the text, and the file afterwards has the same text and a right cache.
pub position-mapped :
    (offset : ℕ) (fl : File)
    → IsValid fl
    → ((position offset fl).0 ≡ mapped fl (row_of fl.src offset) (col_of fl.src offset))
      × ((position offset fl).1.src ≡ fl.src)
      × IsValid (position offset fl).1
unfolding position
position-mapped offset fl v = elim (Bool-cases (ltb fl.last_scanned_offset offset)) [
  | inl far ↦
      let c = scan_to-Counted offset fl v (ltb→lt fl.last_scanned_offset offset far) in
      rw far (place-mapped fl _ offset _ _ c.cached c.lines c.known, refl, c.cached)
  | inr near ↦
      let le = ltb→ge fl.last_scanned_offset offset near in
      let e = find_line-count_le offset fl.line_offsets v.ascending in
      let q = count_le-Cached fl.src offset fl.last_scanned_offset fl.line_offsets v le in
      rw near (
        place-mapped fl _ offset fl.last_scanned_offset fl.line_offsets v (e ∙ sym q)
            (rw e (count_le-le offset fl.line_offsets)),
        refl,
        v,
      )
]

Ascending-line_starts : (o k : ℕ) (s : List ℕ) → Ascending (line_starts o k s)
unfolding line_starts
Ascending-line_starts o k [] = tt
Ascending-line_starts o (suc k) (b ∷ bs) = Ascending-line_starts (o + 1) k bs
Ascending-line_starts o zero (b ∷ bs) =
    at_head (terminator (b ∷ bs)) (Ascending-line_starts (o + 1) (terminator (b ∷ bs) - 1) bs)
  where
    at_head :
        (w : ℕ)
        → Ascending (line_starts (o + 1) (w - 1) bs)
        → Ascending (
            if ltb 0 w
            then (o + w) ∷ line_starts (o + 1) (w - 1) bs
            else line_starts (o + 1) (w - 1) bs)
    at_head w r = elim (Bool-cases (ltb 0 w)) [
      | inl y ↦
          let e : o + w ≡ o + 1 + (w - 1) = ground arith in
          rw y (
            rw (line_starts-drop (o + 1) (w - 1) bs, e)
                (AllGt-line_starts _ (o + 1 + (w - 1)) 0 (drop (w - 1) bs) (omega arith)),
            r,
          )
      | inr no' ↦ rw no' r
    ]

-- The line of an offset begins at or before it, so its column is its distance from there plus one.
pub col_of-begins :
    (src : List ℕ) (offset : ℕ)
    → col_of src offset + begins (line_starts 0 0 src) (count_le offset (line_starts 0 0 src))
      ≡ offset + 1
col_of-begins src offset =
    omega (arith, begins-le offset (line_starts 0 0 src) (Ascending-line_starts 0 0 src))
