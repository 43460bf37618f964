-- ===== src/OrderedMap/Buckets.antt =====
-- The entries of a list whose keys have a hash, in their order.
use sobek.Base.{
  member, Distinct, ℕ, ◌≤◌, Bool, true, false, List, [], ◌∷◌, ◌++◌, Option, none, some, ◌≡◌, refl,
  arith, ◌==◌, ==→≡, if◌then◌else◌, length, Bool-cases, inl, inr, sym, ◌∙◌,
}
use sobek.Value.{Value}
use sobek.OrderedMap.{Heap}

module _ (hash : Value → ℕ) where
  abbrev pub in_bucket : ℕ → Option Value → Bool
  in_bucket h none = false
  in_bucket h (some k) = hash k == h

  abbrev pub bucket : Heap → ℕ → List ℕ → List ℕ
  bucket heap h [] = []
  bucket heap h (p ∷ ps) =
      if in_bucket h (heap p).key then p ∷ bucket heap h ps else bucket heap h ps

  module _ (heap : Heap) (h : ℕ) where
    pub bucket-append :
        (ps qs : List ℕ) → bucket heap h (ps ++ qs) ≡ bucket heap h ps ++ bucket heap h qs
    bucket-append [] qs = refl
    bucket-append (p ∷ ps) qs = ground (arith, bucket-append ps qs)

    pub bucket-append_out :
        (n : ℕ) (ps : List ℕ)
        → in_bucket h (heap n).key ≡ false
        → bucket heap h (ps ++ (n ∷ [])) ≡ bucket heap h ps
    bucket-append_out n [] out = rw out refl
    bucket-append_out n (p ∷ ps) out = ground (arith, bucket-append_out n ps out)

    pub member-bucket :
        (a : ℕ) (ps : List ℕ) → member a (bucket heap h ps) ≡ true → member a ps ≡ true
    member-bucket a [] m = m
    member-bucket a (p ∷ ps) m = ground (arith, member-bucket a ps, m)

    bucket-in_bucket :
        (a : ℕ) (ps : List ℕ) → member a (bucket heap h ps) ≡ true → in_bucket h (heap a).key ≡ true
    bucket-in_bucket a [] m = absurd (ground (arith, m))
    bucket-in_bucket a (p ∷ ps) m = elim (Bool-cases (in_bucket h (heap p).key)) [
      | inl y ↦ elim (Bool-cases (p == a)) [
        | inl e ↦ let same = ==→≡ p a e in rw same at y
        | inr n ↦ bucket-in_bucket a ps (ground (arith, m, y, n))
      ]
      | inr n ↦ bucket-in_bucket a ps (rw n at m)
    ]

    pub Distinct-bucket : (ps : List ℕ) → Distinct ps → Distinct (bucket heap h ps)
    Distinct-bucket [] d = tt
    Distinct-bucket (p ∷ ps) d = elim (Bool-cases (in_bucket h (heap p).key)) [
      | inl y ↦ rw y (ground (arith, member-bucket p ps, d.0), Distinct-bucket ps d.1)
      | inr n ↦ rw n (Distinct-bucket ps d.1)
    ]

    pub length-bucket : (ps : List ℕ) → length (bucket heap h ps) ≤ length ps
    length-bucket [] = omega arith
    length-bucket (p ∷ ps) = ground (arith, length-bucket ps)

    -- An entry of the list whose key has the hash is in the bucket.
    pub bucket-member :
        (a : ℕ) (ps : List ℕ)
        → member a ps ≡ true
        → in_bucket h (heap a).key ≡ true
        → member a (bucket heap h ps) ≡ true
    bucket-member a [] m e = m
    bucket-member a (p ∷ ps) m e = elim (Bool-cases (p == a)) [
      | inl y ↦ let same = ==→≡ p a y in ground (arith, e, same)
      | inr n ↦ ground (arith, m, n, bucket-member a ps)
    ]

    -- Where the bucket splits at an entry, the list does.
    abbrev pub Split : List ℕ → List ℕ → List ℕ → ℕ → Type 0
    Split ps xs ys p =
        (cs : List ℕ) × (ds : List ℕ) × (ps ≡ cs ++ (p ∷ ds))
        × (bucket heap h cs ≡ xs)
        × (bucket heap h ds ≡ ys)
        × (in_bucket h (heap p).key ≡ true)

    pub bucket-Split :
        (ps xs ys : List ℕ) (p : ℕ) → bucket heap h ps ≡ xs ++ (p ∷ ys) → Split ps xs ys p
    bucket-Split [] [] ys p e = absurd (ground (arith, e))
    bucket-Split [] (x ∷ xs) ys p e = absurd (ground (arith, e))
    bucket-Split (q ∷ ps) xs ys p e = elim (Bool-cases (in_bucket h (heap q).key)) [
      | inl y ↦ at_head xs y (rw y at e) (bucket-Split ps)
      | inr n ↦
          let (cs, ds, a, b, c, k) = bucket-Split ps xs ys p (rw n at e) in
          (q ∷ cs, ds, rw a refl, rw n b, c, k)
    ]
      where
        at_head :
            (xs : List ℕ)
            → in_bucket h (heap q).key ≡ true
            → (q ∷ bucket heap h ps) ≡ xs ++ (p ∷ ys)
            → ((xs ys : List ℕ) (p : ℕ) → bucket heap h ps ≡ xs ++ (p ∷ ys) → Split ps xs ys p)
            → Split (q ∷ ps) xs ys p
        at_head [] y e' ih =
            let same : q ≡ p = ground (arith, e') in
            ([], ps, rw same refl, refl, ground (arith, e'), rw same at y)
        at_head (x ∷ xs) y e' ih =
            let same : q ≡ x = ground (arith, e') in
            let (cs, ds, a, b, c, k) = ih xs ys p (ground (arith, e')) in
            (q ∷ cs, ds, rw a refl, rw (y, b, same) refl, c, k)

  pub other_bucket :
      (key : Option Value) (h i : ℕ)
      → in_bucket h key ≡ true
      → (i == h) ≡ false
      → in_bucket i key ≡ false
  other_bucket none h i k other = refl
  other_bucket (some v) h i k other =
      let same = ==→≡ (hash v) h k in rw same (ground (arith, other))

  -- The buckets of two hashes have no entry in common.
  pub bucket-apart :
      (heap : Heap) (k h : ℕ) (ps : List ℕ) (a : ℕ)
      → member a (bucket heap k ps) ≡ true
      → member a (bucket heap h ps) ≡ true
      → k ≡ h
  bucket-apart heap k h ps a x y =
      by_key (heap a).key (bucket-in_bucket heap k a ps x) (bucket-in_bucket heap h a ps y)
    where
      by_key : (e : Option Value) → in_bucket k e ≡ true → in_bucket h e ≡ true → k ≡ h
      by_key none x y = absurd (ground (arith, x))
      by_key (some v) x y = sym (==→≡ (hash v) k x) ∙ ==→≡ (hash v) h y

  pub bucket-frame :
      (heap heap' : Heap) (h : ℕ) (ps : List ℕ)
      → ((a : ℕ) → member a ps ≡ true → (heap' a).key ≡ (heap a).key)
      → bucket heap' h ps ≡ bucket heap h ps
  bucket-frame heap heap' h [] same = refl
  bucket-frame heap heap' h (p ∷ ps) same =
      let e = same p (ground arith) in
      let ih = bucket-frame heap heap' h ps (λ a m. same a (ground (arith, m))) in rw (e, ih) refl
