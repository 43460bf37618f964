-- ===== src/File/Sets.antt =====
-- File sets: every index belongs to one file, and `Position` finds the place in its text.
use sobek.Base.{
  ℕ, ◌+◌, ◌-◌, ◌≤◌, true, false, List, [], ◌∷◌, ◌++◌, Option, some, ◌≡◌, refl, arith, leb, length,
  ◌∙◌, sym, Bool-cases, inl, inr,
}
use sobek.File.{
  File, FileSet, next_base, new_file, add_file, position, position_among, set_position, mapped,
  file_at,
}
use sobek.File.Place.{IsValid, row_of, col_of, position-mapped}

-- The files stand in the order of their bases, each with room for its text and its end.
abbrev pub Chained : ℕ → List File → Type 0
Chained b [] = Unit
Chained b (f ∷ fs) = (f.base ≡ b) × IsValid f × Chained (b + length f.src + 1) fs

abbrev pub chain_end : ℕ → List File → ℕ
chain_end b [] = b
chain_end b (f ∷ fs) = chain_end (b + length f.src + 1) fs

pub record WellFormed (set : FileSet) : Type 0 where
  pub chained : Chained 1 set.files
  pub next : next_base set ≡ chain_end 1 set.files

new_file-IsValid : (name src : List ℕ) (base : ℕ) → IsValid (new_file name src base)
new_file-IsValid name src base = record {
  split = refl;
  below = tt;
  ascending = tt;
  inside = omega arith;
}

Chained-append :
    (b : ℕ) (fs : List File) (f : File)
    → Chained b fs
    → f.base ≡ chain_end b fs
    → IsValid f
    → Chained b (fs ++ (f ∷ []))
Chained-append b [] f c e v = (e, v, tt)
Chained-append b (g ∷ gs) f (h, u, c) e v = (h, u, Chained-append (b + length g.src + 1) gs f c e v)

chain_end-append :
    (b : ℕ) (fs : List File) (f : File)
    → chain_end b (fs ++ (f ∷ [])) ≡ chain_end b fs + length f.src + 1
chain_end-append b [] f = refl
chain_end-append b (g ∷ gs) f = chain_end-append (b + length g.src + 1) gs f

-- Adding a file keeps the set well formed.
pub add_file-WellFormed :
    (name src : List ℕ) (set : FileSet) → WellFormed set → WellFormed (add_file name src set).1
unfolding add_file next_base
add_file-WellFormed name src set w = record {
  chained =
      Chained-append 1 set.files (new_file name src (next_base set)) w.chained w.next
        (new_file-IsValid name src (next_base set));
  next = rw (chain_end-append 1 set.files (new_file name src (next_base set)), ← w.next) refl;
}

base-ge :
    (b : ℕ) (before after : List File) (f : File) → Chained b (before ++ (f ∷ after)) → b ≤ f.base
base-ge b [] after f (e, v, c) = omega arith
base-ge b (g ∷ before) after f (e, v, c) =
    omega (arith, base-ge (b + length g.src + 1) before after f c)

Chained-member :
    (b : ℕ) (before after : List File) (f : File) → Chained b (before ++ (f ∷ after)) → IsValid f
Chained-member b [] after f (e, v, c) = v
Chained-member b (g ∷ before) after f (e, v, c) =
    Chained-member (b + length g.src + 1) before after f c

position_among-mapped :
    (b offset : ℕ) (before after : List File) (f : File)
    → Chained b (before ++ (f ∷ after))
    → offset ≤ length f.src
    → (position_among (f.base + offset) (before ++ (f ∷ after))).0 ≡ (position offset f).0
unfolding position_among
position_among-mapped b offset [] after f c le =
    let e : leb (f.base + offset) (f.base + length f.src) ≡ true = ground arith in
    let q : f.base + offset - f.base ≡ offset = omega arith in rw (e, q) refl
position_among-mapped b offset (g ∷ before) after f (e, v, c) le =
    let far : leb (f.base + offset) (g.base + length g.src) ≡ false =
      ground (arith, base-ge (b + length g.src + 1) before after f c) in
    rw far (position_among-mapped (b + length g.src + 1) offset before after f c le)

-- In a well-formed set, an index that is a file's base and an offset within its text has the
-- position of that offset in that file's text, whatever other files there are and whatever
-- positions were asked for before.
pub set_position-mapped :
    (offset : ℕ) (before after : List File) (f : File) (last : Option File)
    → WellFormed (record { files = before ++ (f ∷ after); last = last })
    → offset ≤ length f.src
    → (set_position (f.base + offset) (record { files = before ++ (f ∷ after); last = last })).0
      ≡ mapped f (row_of f.src offset) (col_of f.src offset)
unfolding set_position
set_position-mapped offset before after f last w le =
    position_among-mapped 1 offset before after f w.chained le
    ∙ (position-mapped offset f (Chained-member 1 before after f w.chained)).0

file_at-Chained :
    (b offset : ℕ) (before after : List File) (f : File)
    → Chained b (before ++ (f ∷ after))
    → offset ≤ length f.src
    → file_at (f.base + offset) (before ++ (f ∷ after)) ≡ some f
unfolding file_at
file_at-Chained b offset [] after f c le =
    let e : leb (f.base + offset) (f.base + length f.src) ≡ true = ground arith in rw e refl
file_at-Chained b offset (g ∷ before) after f (e, v, c) le =
    let far : leb (f.base + offset) (g.base + length g.src) ≡ false =
      ground (arith, base-ge (b + length g.src + 1) before after f c) in
    rw far (file_at-Chained (b + length g.src + 1) offset before after f c le)

-- In a well-formed set, the file of an index that is a file's base and an offset within its text
-- is that file.
pub file_at-of_base :
    (offset : ℕ) (before after : List File) (f : File) (last : Option File)
    → WellFormed (record { files = before ++ (f ∷ after); last = last })
    → offset ≤ length f.src
    → file_at (f.base + offset) (before ++ (f ∷ after)) ≡ some f
file_at-of_base offset before after f last w le =
    file_at-Chained 1 offset before after f w.chained le

position-base : (offset : ℕ) (f : File) → (position offset f).1.base ≡ f.base
unfolding position
position-base offset f = ground arith

Chained-position :
    (b idx : ℕ) (fs : List File)
    → Chained b fs
    → Chained b (position_among idx fs).1 × (chain_end b (position_among idx fs).1 ≡ chain_end b fs)
unfolding position_among
Chained-position b idx [] c = (tt, refl)
Chained-position b idx (f ∷ fs) (e, v, c) = elim (Bool-cases (leb idx (f.base + length f.src))) [
  | inl y ↦
      let (same, text, valid) = position-mapped (idx - f.base) f v in
      rw y ((position-base (idx - f.base) f ∙ e, valid, rw text c), rw text refl)
  | inr no' ↦
      let (rest, end) = Chained-position (b + length f.src + 1) idx fs c in
      rw no' ((e, v, rest), end)
]

-- Asking for a position keeps the set well formed.
pub set_position-WellFormed :
    (idx : ℕ) (set : FileSet) → WellFormed set → WellFormed (set_position idx set).1
unfolding set_position next_base
set_position-WellFormed idx set w =
    let (c, e) = Chained-position 1 idx set.files w.chained in
    record { chained = c; next = w.next ∙ sym e }
