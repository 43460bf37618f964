-- ===== src/OrderedMap/Links.antt =====
-- Chains of pointers: forth by a successor function, and back by a predecessor function.
use sobek.Base.{
  member, Distinct, ℕ, true, ◌||◌, List, [], ◌∷◌, ◌++◌, Option, none, some, ◌≡◌, ◌≢◌, refl, arith,
  ◌∙◌,
}

-- From `s` the successors lead through the list to `t`.
abbrev pub Seg : (ℕ → Option ℕ) → Option ℕ → List ℕ → Option ℕ → Type 0
Seg f s [] t = s ≡ t
Seg f s (p ∷ ps) t = (s ≡ some p) × Seg f (f p) ps t

-- Each one's predecessor is the one before it, and the first one's is `q`.
abbrev pub Backs : (ℕ → Option ℕ) → Option ℕ → List ℕ → Type 0
Backs f q [] = Unit
Backs f q (p ∷ ps) = (f p ≡ q) × Backs f (some p) ps

abbrev pub last_or : Option ℕ → List ℕ → Option ℕ
last_or q [] = q
last_or q (p ∷ ps) = last_or (some p) ps

abbrev pub head_or : Option ℕ → List ℕ → Option ℕ
head_or q [] = q
head_or q (p ∷ ps) = some p

pub last_or-append :
    (q : Option ℕ) (ps qs : List ℕ) → last_or q (ps ++ qs) ≡ last_or (last_or q ps) qs
last_or-append q [] qs = refl
last_or-append q (p ∷ ps) qs = last_or-append (some p) ps qs

pub last_or-member :
    (p l : ℕ) (ps : List ℕ) → last_or (some p) ps ≡ some l → member l (p ∷ ps) ≡ true
last_or-member p l [] e = ground (arith, e)
last_or-member p l (q ∷ ps) e = ground (arith, last_or-member q l ps e)

pub last-member : (l : ℕ) (ps : List ℕ) → last_or none ps ≡ some l → member l ps ≡ true
last-member l [] e = absurd (ground (arith, e))
last-member l (p ∷ ps) e = last_or-member p l ps e

last_or-elim :
    (u s : Option ℕ) (p : ℕ) (ps : List ℕ)
    → (elim (last_or (some p) ps) [ none ↦ u | some l ↦ s ]) ≡ s
last_or-elim u s p [] = refl
last_or-elim u s p (q ∷ ps) = last_or-elim u s q ps

-- There is a last one where there is a first one.
pub last-elim :
    (u s : Option ℕ) (ps : List ℕ)
    → (elim (last_or none ps) [ none ↦ u | some l ↦ s ]) ≡ (elim ps [ [] ↦ u | p ∷ qs ↦ s ])
last-elim u s [] = refl
last-elim u s (p ∷ ps) = last_or-elim u s p ps

pub head-member : (a : ℕ) (ps : List ℕ) → head_or none ps ≡ some a → member a ps ≡ true
head-member a [] e = absurd (ground (arith, e))
head-member a (p ∷ ps) e = ground (arith, e)

pub member-append_list :
    (n : ℕ) (ps qs : List ℕ) → member n (ps ++ qs) ≡ (member n ps || member n qs)
member-append_list n [] qs = refl
member-append_list n (p ∷ ps) qs = ground (arith, member-append_list n ps qs)

module _ (f : ℕ → Option ℕ) where
  pub Seg-append :
      (s t u : Option ℕ) (ps qs : List ℕ) → Seg f s ps t → Seg f t qs u → Seg f s (ps ++ qs) u
  Seg-append s t u [] qs a b = rw a b
  Seg-append s t u (p ∷ ps) qs a b = (a.0, Seg-append (f p) t u ps qs a.1 b)

  pub Seg-split :
      (s t : Option ℕ) (ps qs : List ℕ)
      → Seg f s (ps ++ qs) t
      → (u : Option ℕ) × Seg f s ps u × Seg f u qs t
  Seg-split s t [] qs a = (s, refl, a)
  Seg-split s t (p ∷ ps) qs a = let (u, b, c) = Seg-split (f p) t ps qs a.1 in (u, (a.0, b), c)

  pub Seg-head : (s t : Option ℕ) (ps : List ℕ) → Seg f s ps t → s ≡ head_or t ps
  Seg-head s t [] a = a
  Seg-head s t (p ∷ ps) a = a.0

  -- The last one's successor is the first one of what comes after.
  pub Seg-last :
      (p : ℕ) (t : Option ℕ) (ps qs : List ℕ)
      → Seg f (f p) (ps ++ qs) t
      → (l : ℕ) × (last_or (some p) ps ≡ some l) × (f l ≡ head_or t qs)
  Seg-last p t [] qs a = (p, refl, Seg-head (f p) t qs a)
  Seg-last p t (q ∷ ps) qs a = Seg-last q t ps qs a.1

  pub Backs-append :
      (q : Option ℕ) (ps qs : List ℕ)
      → Backs f q ps
      → Backs f (last_or q ps) qs
      → Backs f q (ps ++ qs)
  Backs-append q [] qs a b = b
  Backs-append q (p ∷ ps) qs a b = (a.0, Backs-append (some p) ps qs a.1 b)

  pub Backs-split :
      (q : Option ℕ) (ps qs : List ℕ)
      → Backs f q (ps ++ qs)
      → Backs f q ps × Backs f (last_or q ps) qs
  Backs-split q [] qs a = (tt, a)
  Backs-split q (p ∷ ps) qs a = let (b, c) = Backs-split (some p) ps qs a.1 in ((a.0, b), c)

module _ (f g : ℕ → Option ℕ) where
  pub Seg-frame :
      (s t : Option ℕ) (ps : List ℕ)
      → ((a : ℕ) → member a ps ≡ true → g a ≡ f a)
      → Seg f s ps t
      → Seg g s ps t
  Seg-frame s t [] same a = a
  Seg-frame s t (p ∷ ps) same a =
      let e = same p (ground arith) in
      (a.0, rw e (Seg-frame (f p) t ps (λ b m. same b (ground (arith, m))) a.1))

  pub Backs-frame :
      (q : Option ℕ) (ps : List ℕ)
      → ((a : ℕ) → member a ps ≡ true → g a ≡ f a)
      → Backs f q ps
      → Backs g q ps
  Backs-frame q [] same a = tt
  Backs-frame q (p ∷ ps) same a =
      let e = same p (ground arith) in
      (e ∙ a.0, Backs-frame (some p) ps (λ b m. same b (ground (arith, m))) a.1)

  -- The last one's successor changes, or the start where there is none.
  pub Seg-retarget :
      (s t u : Option ℕ) (ps : List ℕ)
      → Distinct ps
      → ((a : ℕ) → member a ps ≡ true → last_or none ps ≢ some a → g a ≡ f a)
      → ((l : ℕ) → last_or none ps ≡ some l → g l ≡ u)
      → Seg f s ps t
      → Seg g (elim ps [ [] ↦ u | p ∷ qs ↦ s ]) ps u
  Seg-retarget s t u [] d same new a = refl
  Seg-retarget s t u (p ∷ []) d same new a = (a.0, new p refl)
  Seg-retarget s t u (p ∷ q ∷ ps) d same new a =
      let e : g p ≡ f p =
        same p (ground arith) (λ l. ground (arith, last_or-member q p ps l, d.0)) in
      (a.0, rw e (Seg-retarget (f p) t u (q ∷ ps) d.1 (λ b m. same b (ground (arith, m))) new a.1))

  -- The first one's predecessor changes.
  pub Backs-rehead :
      (q u : Option ℕ) (ps : List ℕ)
      → Distinct ps
      → ((a : ℕ) → member a ps ≡ true → head_or none ps ≢ some a → g a ≡ f a)
      → ((b : ℕ) → head_or none ps ≡ some b → g b ≡ u)
      → Backs f q ps
      → Backs g u ps
  Backs-rehead q u [] d same new a = tt
  Backs-rehead q u (p ∷ ps) d same new a = (
    new p refl,
    Backs-frame (some p) ps (λ b m. same b (ground (arith, m)) (λ h. ground (arith, h, d.0, m)))
        a.1,
  )
