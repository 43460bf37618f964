-- ===== src/File.antt =====
-- Source files and the positions in them (file/file.go). A source text is the list of its bytes. The
-- bytes E2 80 A8 and E2 80 A9 are U+2028 and U+2029; E2 begins no rune but at a rune's first byte, so
-- a walk over the bytes finds what the code's walk over the runes finds. Offsets are not negative:
-- the index of a position is 1 or greater. The mutex is not shown.
pub mod Starts
pub mod Scan
pub mod Find
pub mod Place
pub mod Sets
mod Examples
use sobek.Base.{
  ℕ, zero, suc, ◌+◌, ◌-◌, Bool, true, false, not, ◌&&◌, ◌||◌, List, [], ◌∷◌, ◌++◌, Option, none,
  some, ltb, leb, ◌==◌, if◌then◌else◌, length, drop,
}
use sobek.Array.Search.{search}

-- A name is the list of its bytes.
pub record Position : Type 0 where
  pub filename : List ℕ
  pub line : ℕ
  pub column : ℕ

-- `source_map` is the position that the source map gives for a row and a column, if there is one.
pub record File : Type 0 where
  pub name : List ℕ
  pub src : List ℕ
  pub base : ℕ
  pub source_map : ℕ → ℕ → Option Position
  pub line_offsets : List ℕ
  pub last_scanned_offset : ℕ

unfoldable pub starts_lf : List ℕ → Bool
starts_lf [] = false
starts_lf (b ∷ bs) = b == 10

-- The bytes that follow E2 in U+2028 and U+2029.
unfoldable pub ends_separator : List ℕ → Bool
ends_separator (b ∷ c ∷ bs) = b == 128 && (c == 168 || c == 169)
ends_separator _ = false

-- The result of a shorter search, with the byte before it.
abbrev pub later : Option ℕ → Option ℕ
later none = none
later (some p) = some (suc p)

unfoldable pub find_next_line_start : List ℕ → Option ℕ
unfolding starts_lf ends_separator
find_next_line_start [] = none
find_next_line_start (b ∷ bs) =
    let rest = find_next_line_start bs in
    if b == 13
    then (if starts_lf bs then some 2 else some 1)
    else if b == 10
    then some 1
    else if b == 226 && ends_separator bs
    then some 3
    else later rest

-- What `scanTo` leaves: the line, with one added as it may be -1, the offsets, and how far it went.
pub record Scanned : Type 0 where
  pub lines : ℕ
  pub offsets : List ℕ
  pub reached : ℕ

unfoldable pub scan_stop : (offset o : ℕ) → List ℕ → Scanned
scan_stop offset o offsets = record {
  lines = if o == offset then length offsets else length offsets - 1;
  offsets = offsets;
  reached = o;
}

-- The loop of `scanTo`; `fuel` rounds are made at most.
unfoldable pub scan_loop : ℕ → List ℕ → (offset o : ℕ) → List ℕ → Scanned
unfolding scan_stop
scan_loop zero src offset o offsets = scan_stop offset o offsets
scan_loop (suc fuel) src offset o offsets =
    if ltb o offset
    then elim (find_next_line_start (drop o src)) [
      | none ↦ record { lines = length offsets; offsets = offsets; reached = length src }
      | some p ↦ scan_loop fuel src offset (o + p) (offsets ++ ((o + p) ∷ []))
    ]
    else scan_stop offset o offsets

unfoldable pub scan_to : ℕ → File → Scanned
unfolding scan_loop
scan_to offset fl = scan_loop offset fl.src offset fl.last_scanned_offset fl.line_offsets

abbrev pub offset_at : List ℕ → ℕ → ℕ
offset_at [] k = 0
offset_at (x ∷ xs) zero = x
offset_at (x ∷ xs) (suc k) = offset_at xs k

-- The search among the offsets found so far, before one is taken away for the line.
unfoldable pub find_line : ℕ → List ℕ → ℕ
find_line offset offsets = search (length offsets) (λ x. ltb offset (offset_at offsets x))

-- The position with a row and a column, through the source map where it knows the place.
unfoldable pub mapped : File → (row col : ℕ) → Position
mapped fl row col = elim (fl.source_map row col) [
  | some pos ↦ pos
  | none ↦ record { filename = fl.name; line = row; column = col }
]

-- The end of `Position`, for the line with one added.
unfoldable pub place : (lines offset : ℕ) → List ℕ → File → Position
place lines offset offsets fl =
    let line_start = if ltb 0 lines then offset_at offsets (lines - 1) else 0 in
    mapped fl (lines + 1) (offset - line_start + 1)

-- `File.Position`
unfoldable pub position : ℕ → File → Position × File
unfolding scan_to find_line place mapped
position offset fl =
    let s = scan_to offset fl in
    let fl' = record fl { line_offsets = s.offsets; last_scanned_offset = s.reached } in
    if ltb fl.last_scanned_offset offset
    then (place s.lines offset s.offsets fl, fl')
    else (place (find_line offset fl.line_offsets) offset fl.line_offsets fl, fl)

-- `last` is nil in an empty set, and otherwise the last of the files; of that file only the base and
-- the text are read, which do not change.
pub record FileSet : Type 0 where
  pub files : List File
  pub last : Option File

unfoldable pub next_base : FileSet → ℕ
next_base set = elim set.last [ none ↦ 1 | some file ↦ file.base + length file.src + 1 ]

abbrev pub new_file : (name src : List ℕ) → (base : ℕ) → File
new_file name src base = record {
  name = name;
  src = src;
  base = base;
  source_map = λ row col. none;
  line_offsets = [];
  last_scanned_offset = 0;
}

-- `AddFile`
unfoldable pub add_file : (name src : List ℕ) → FileSet → ℕ × FileSet
unfolding next_base
add_file name src set =
    let file = new_file name src (next_base set) in
    (next_base set, record { files = set.files ++ (file ∷ []); last = some file })

-- `FileSet.File`
unfoldable pub file_at : ℕ → List File → Option File
file_at idx [] = none
file_at idx (file ∷ files) =
    let rest = file_at idx files in
    if leb idx (file.base + length file.src) then some file else rest

unfoldable pub position_among : ℕ → List File → Position × List File
unfolding position
position_among idx [] = (record { filename = []; line = 0; column = 0 }, [])
position_among idx (file ∷ files) =
    let here = position (idx - file.base) file in
    let rest = position_among idx files in
    if leb idx (file.base + length file.src)
    then (here.0, here.1 ∷ files)
    else (rest.0, file ∷ rest.1)

-- `FileSet.Position`
unfoldable pub set_position : ℕ → FileSet → Position × FileSet
unfolding position_among
set_position idx set = let r = position_among idx set.files in (r.0, record set { files = r.1 })
