-- ===== src/OrderedMap/Unlink.antt =====
-- A chain from which one is taken out.
use sobek.Base.{
  member, Distinct, ℕ, true, false, List, [], ◌∷◌, ◌++◌, Option, none, some, ◌≡◌, ◌≢◌, inl, inr,
  arith, ◌==◌, ==→≡, Bool-cases, ◌∙◌, sym,
}
use sobek.OrderedMap.Links.{
  Seg, Seg-append, Seg-split, Seg-frame, Seg-retarget, Backs, Backs-append, Backs-split,
  Backs-frame, Backs-rehead, last_or, head_or, last-member, last_or-append, member-append_list,
  head-member,
}

-- What stands before the one is apart from what comes after it, and neither holds it.
pub record Apart (cs : List ℕ) (p : ℕ) (ds : List ℕ) : Type 0 where
  pub before : Distinct cs
  pub behind : Distinct ds
  pub out : member p ds ≡ false
  pub apart : (a : ℕ) → member a cs ≡ true → member a (p ∷ ds) ≡ false

pub Distinct-Apart : (cs : List ℕ) (p : ℕ) (ds : List ℕ) → Distinct (cs ++ (p ∷ ds)) → Apart cs p ds
Distinct-Apart [] p ds d = record {
  before = tt;
  behind = d.1;
  out = d.0;
  apart = λ a m. absurd (ground (arith, m));
}
Distinct-Apart (c ∷ cs) p ds d =
    let ih = Distinct-Apart cs p ds d.1 in
    let e = member-append_list c cs (p ∷ ds) in
    record {
      before = (ground (arith, d.0, e), ih.before);
      behind = ih.behind;
      out = ih.out;
      apart = λ a m. elim (Bool-cases (c == a)) [
        | inl y ↦
            let same = ==→≡ c a y in
            let out : member c (p ∷ ds) ≡ false = ground (arith, d.0, e) in
            ground (arith, same, out)
        | inr n ↦ ih.apart a (ground (arith, m, n))
      ];
    }

pub Distinct-unlink :
    (cs : List ℕ) (p : ℕ) (ds : List ℕ) → Distinct (cs ++ (p ∷ ds)) → Distinct (cs ++ ds)
Distinct-unlink [] p ds d = d.1
Distinct-unlink (c ∷ cs) p ds d = (
  ground (arith, d.0, member-append_list c cs (p ∷ ds), member-append_list c cs ds),
  Distinct-unlink cs p ds d.1,
)

pub last-unlink :
    (cs : List ℕ) (p : ℕ) (ds : List ℕ) (next prev last : Option ℕ)
    → next ≡ head_or none ds
    → prev ≡ last_or none cs
    → last ≡ last_or none (cs ++ (p ∷ ds))
    → (elim next [ none ↦ prev | some r ↦ last ]) ≡ last_or none (cs ++ ds)
last-unlink cs p [] next prev last n q l = rw n (q ∙ sym (last_or-append none cs []))
last-unlink cs p (r ∷ ds) next prev last n q l =
    rw n (l ∙ last_or-append none cs (p ∷ r ∷ ds) ∙ sym (last_or-append none cs (r ∷ ds)))

module _ (f g : ℕ → Option ℕ) (ps qs : List ℕ) (p : ℕ) (d : Distinct (ps ++ (p ∷ qs))) where
  parts : Apart ps p qs
  parts = Distinct-Apart ps p qs d

  -- The one before it, or the start, leads on to the one after it.
  pub Seg-unlink :
      (s t : Option ℕ)
      → ((l : ℕ) → last_or none ps ≡ some l → g l ≡ f p)
      → ((a : ℕ) → last_or none ps ≢ some a → g a ≡ f a)
      → Seg f s (ps ++ (p ∷ qs)) t
      → Seg g (elim ps [ [] ↦ f p | c ∷ cs ↦ s ]) (ps ++ qs) t
  Seg-unlink s t new same a =
      let (u, front, at_p) = Seg-split f s t ps (p ∷ qs) a in
      Seg-append g _ (f p) t ps qs
        (Seg-retarget f g s u (f p) ps parts.before (λ b m. same b) new front)
        (Seg-frame f g (f p) t qs
          (λ b m. same b (λ l. ground (arith, parts.apart b (last-member b ps l), m))) at_p.1)

  -- The one after it leads back to the one before it.
  pub Backs-unlink :
      ((b : ℕ) → head_or none qs ≡ some b → g b ≡ last_or none ps)
      → ((a : ℕ) → head_or none qs ≢ some a → g a ≡ f a)
      → Backs f none (ps ++ (p ∷ qs))
      → Backs g none (ps ++ qs)
  Backs-unlink new same a =
      let (front, at_p) = Backs-split f none ps (p ∷ qs) a in
      Backs-append g none ps qs
        (Backs-frame f g none ps
          (λ b m. same b (λ h. ground (arith, parts.apart b m, head-member b qs h))) front)
        (Backs-rehead f g (some p) (last_or none ps) qs parts.behind (λ b m. same b) new at_p.1)
