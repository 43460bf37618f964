-- ===== src/File/Examples.antt =====
-- Runs of the search for positions, and the theorems about it at concrete texts.
use sobek.Base.{ℕ, ◌+◌, List, [], ◌∷◌, none, some, ◌≡◌, ◌⊎◌, refl, arith}
use sobek.File.{
  File, FileSet, find_next_line_start, position, new_file, add_file, set_position, next_base,
  mapped, file_at,
}
use sobek.File.Starts.{line_starts, Found, find_next_line_start-Found}
use sobek.File.Place.{IsValid, row_of, col_of, position-mapped}
use sobek.File.Sets.{
  WellFormed, file_at-of_base, add_file-WellFormed, set_position-mapped, set_position-WellFormed,
}

-- "a", CR, LF, "b", U+2028, "c".
abbrev text : List ℕ
text = 97 ∷ 13 ∷ 10 ∷ 98 ∷ 226 ∷ 128 ∷ 168 ∷ 99 ∷ []

abbrev script : File
script = new_file (115 ∷ []) text 1

abbrev no_files : FileSet
no_files = record { files = []; last = none }

abbrev two_scripts : FileSet
two_scripts = record {
  files = script ∷ new_file (116 ∷ []) text 10 ∷ [];
  last = some (new_file (116 ∷ []) text 10);
}

next_of_text : find_next_line_start text ≡ some 3
unfolding find_next_line_start
next_of_text = refl

place_of_last : (position 7 script).0 ≡ record { filename = 115 ∷ []; line = 3; column = 1 }
unfolding position find_next_line_start
place_of_last = refl

script-IsValid : IsValid script
script-IsValid = record { split = refl; below = tt; ascending = tt; inside = omega arith }

no_files-WellFormed : WellFormed no_files
unfolding next_base
no_files-WellFormed = record { chained = tt; next = refl }

two_scripts-WellFormed : WellFormed two_scripts
unfolding next_base
two_scripts-WellFormed = record {
  chained = (
    refl,
    script-IsValid,
    (refl, record { split = refl; below = tt; ascending = tt; inside = omega arith }, tt),
  );
  next = refl;
}

find_next_line_start-Found_example :
    ((p : ℕ) × (find_next_line_start text ≡ some p) × Found 0 text p)
    ⊎ (find_next_line_start text ≡ none) × (line_starts 0 0 text ≡ [])
find_next_line_start-Found_example = find_next_line_start-Found 0 text

position-mapped_example :
    ((position 5 script).0 ≡ mapped script (row_of text 5) (col_of text 5))
    × ((position 5 script).1.src ≡ text)
    × IsValid (position 5 script).1
position-mapped_example = position-mapped 5 script script-IsValid

add_file-WellFormed_example : WellFormed (add_file (115 ∷ []) text no_files).1
add_file-WellFormed_example = add_file-WellFormed (115 ∷ []) text no_files no_files-WellFormed

set_position-mapped_example :
    (set_position (10 + 5) two_scripts).0
    ≡ mapped (new_file (116 ∷ []) text 10) (row_of text 5) (col_of text 5)
set_position-mapped_example =
    set_position-mapped 5 (script ∷ []) [] (new_file (116 ∷ []) text 10) two_scripts.last
      two_scripts-WellFormed (omega arith)

file_at-of_base_example : file_at (10 + 5) two_scripts.files ≡ some (new_file (116 ∷ []) text 10)
file_at-of_base_example =
    file_at-of_base 5 (script ∷ []) [] (new_file (116 ∷ []) text 10) two_scripts.last
      two_scripts-WellFormed (omega arith)

set_position-WellFormed_example : WellFormed (set_position 12 two_scripts).1
set_position-WellFormed_example = set_position-WellFormed 12 two_scripts two_scripts-WellFormed
