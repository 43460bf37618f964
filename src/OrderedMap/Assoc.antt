-- ===== src/OrderedMap/Assoc.antt =====
-- What a map promises: an association list in the order of insertion, its keys compared by
-- SameValue. The entries of the ordered map stand for such a list.
use sobek.Base.{
  ◌==◌, ==→≡, inl, inr, Bool-cases, member, Distinct, ℕ, true, false, List, [], ◌∷◌, ◌++◌, Option,
  none, some, ◌≡◌, ◌≢◌, refl, arith, if◌then◌else◌, ◌∙◌, sym,
}
use sobek.Value.{Value, Objects, same_as}
use sobek.Value.Hashing.{IsKey}
use sobek.OrderedMap.{MapEntry, Heap, matches}
use sobek.OrderedMap.Links.{member-append_list}
use sobek.OrderedMap.Find.{Lacks, KeysIn}

abbrev pub Assoc : Type 0
Assoc = List (Value × Value)

module _ (rt : Objects) where
  abbrev pub assoc_get : Value → Assoc → Option Value
  assoc_get key [] = none
  assoc_get key ((k, v) ∷ xs) = if same_as rt k key then some v else assoc_get key xs

  -- The place of a key that is there stays, and a new one comes last.
  abbrev pub assoc_set : Value → Value → Assoc → Assoc
  assoc_set key value [] = (key, value) ∷ []
  assoc_set key value ((k, v) ∷ xs) =
      if same_as rt k key then (k, value) ∷ xs else (k, v) ∷ assoc_set key value xs

  abbrev pub assoc_remove : Value → Assoc → Assoc
  assoc_remove key [] = []
  assoc_remove key ((k, v) ∷ xs) = if same_as rt k key then xs else (k, v) ∷ assoc_remove key xs

-- The entries' keys and values, in order.
abbrev pub Represents : Heap → List ℕ → Assoc → Type 0
Represents heap [] [] = Unit
Represents heap (p ∷ ps) ((k, v) ∷ xs) =
    ((heap p).key ≡ some k) × ((heap p).value ≡ some v) × Represents heap ps xs
Represents heap _ _ = ⊥

pub Represents-frame :
    (heap heap' : Heap) (ps : List ℕ) (xs : Assoc)
    → ((a : ℕ) → member a ps ≡ true → (heap' a).key ≡ (heap a).key)
    → ((a : ℕ) → member a ps ≡ true → (heap' a).value ≡ (heap a).value)
    → Represents heap ps xs
    → Represents heap' ps xs
Represents-frame heap heap' [] [] keys values r = tt
Represents-frame heap heap' (p ∷ ps) ((k, v) ∷ xs) keys values (a, b, r) =
    let i : member p (p ∷ ps) ≡ true = ground arith in
    (
      keys p i ∙ a,
      values p i ∙ b,
      Represents-frame heap heap' ps xs (λ c m. keys c (ground (arith, m)))
          (λ c m. values c (ground (arith, m))) r,
    )
Represents-frame heap heap' [] (_ ∷ xs) keys values r = elim r [ ]
Represents-frame heap heap' (p ∷ ps) [] keys values r = elim r [ ]

pub Represents-append :
    (heap : Heap) (ps : List ℕ) (xs : Assoc) (n : ℕ) (key value : Value)
    → Represents heap ps xs
    → (heap n).key ≡ some key
    → (heap n).value ≡ some value
    → Represents heap (ps ++ (n ∷ [])) (xs ++ ((key, value) ∷ []))
Represents-append heap [] [] n key value r a b = (a, b, tt)
Represents-append heap (p ∷ ps) ((k, v) ∷ xs) n key value (c, d, r) a b =
    (c, d, Represents-append heap ps xs n key value r a b)
Represents-append heap [] (_ ∷ xs) n key value r a b = elim r [ ]
Represents-append heap (p ∷ ps) [] n key value r a b = elim r [ ]

module _ (rt : Objects) where
  differs : (e : MapEntry) (key k : Value) → e.key ≡ some k → matches rt e key ≡ same_as rt k key
  differs e key k a = rw a refl

  Lacks-head :
      (heap : Heap) (key k : Value) (p : ℕ) (ps : List ℕ)
      → Lacks rt heap key (p ∷ ps)
      → (heap p).key ≡ some k
      → same_as rt k key ≡ false
  Lacks-head heap key k p ps l a = sym (differs (heap p) key k a) ∙ l p (ground arith)

  Lacks-tail :
      (heap : Heap) (key : Value) (p : ℕ) (ps : List ℕ)
      → Lacks rt heap key (p ∷ ps)
      → Lacks rt heap key ps
  Lacks-tail heap key p ps l a m = l a (ground (arith, m))

  pub assoc_get-Lacks :
      (heap : Heap) (key : Value) (ps : List ℕ) (xs : Assoc)
      → Represents heap ps xs
      → Lacks rt heap key ps
      → assoc_get rt key xs ≡ none
  assoc_get-Lacks heap key [] [] r l = refl
  assoc_get-Lacks heap key (p ∷ ps) ((k, v) ∷ xs) (a, b, r) l =
      let n = Lacks-head heap key k p ps l a in
      rw n (assoc_get-Lacks heap key ps xs r (Lacks-tail heap key p ps l))
  assoc_get-Lacks heap key [] (_ ∷ xs) r l = elim r [ ]
  assoc_get-Lacks heap key (p ∷ ps) [] r l = elim r [ ]

  pub assoc_set-Lacks :
      (heap : Heap) (key value : Value) (ps : List ℕ) (xs : Assoc)
      → Represents heap ps xs
      → Lacks rt heap key ps
      → assoc_set rt key value xs ≡ xs ++ ((key, value) ∷ [])
  assoc_set-Lacks heap key value [] [] r l = refl
  assoc_set-Lacks heap key value (p ∷ ps) ((k, v) ∷ xs) (a, b, r) l =
      let n = Lacks-head heap key k p ps l a in
      rw (n, assoc_set-Lacks heap key value ps xs r (Lacks-tail heap key p ps l)) refl
  assoc_set-Lacks heap key value [] (_ ∷ xs) r l = elim r [ ]
  assoc_set-Lacks heap key value (p ∷ ps) [] r l = elim r [ ]

  pub assoc_remove-Lacks :
      (heap : Heap) (key : Value) (ps : List ℕ) (xs : Assoc)
      → Represents heap ps xs
      → Lacks rt heap key ps
      → assoc_remove rt key xs ≡ xs
  assoc_remove-Lacks heap key [] [] r l = refl
  assoc_remove-Lacks heap key (p ∷ ps) ((k, v) ∷ xs) (a, b, r) l =
      let n = Lacks-head heap key k p ps l a in
      rw (n, assoc_remove-Lacks heap key ps xs r (Lacks-tail heap key p ps l)) refl
  assoc_remove-Lacks heap key [] (_ ∷ xs) r l = elim r [ ]
  assoc_remove-Lacks heap key (p ∷ ps) [] r l = elim r [ ]

  -- At the first entry with the key.
  pub assoc_get-found :
      (heap : Heap) (key : Value) (cs : List ℕ) (p : ℕ) (ds : List ℕ) (xs : Assoc)
      → Represents heap (cs ++ (p ∷ ds)) xs
      → Lacks rt heap key cs
      → matches rt (heap p) key ≡ true
      → (v : Value) × (assoc_get rt key xs ≡ some v) × ((heap p).value ≡ some v)
  assoc_get-found heap key [] p ds ((k, v) ∷ xs) (a, b, r) l y =
      let same = sym (differs (heap p) key k a) ∙ y in (v, rw same refl, b)
  assoc_get-found heap key (c ∷ cs) p ds ((k, v) ∷ xs) (a, b, r) l y =
      let n = Lacks-head heap key k c cs l a in
      rw n (assoc_get-found heap key cs p ds xs r (Lacks-tail heap key c cs l) y)
  assoc_get-found heap key [] p ds [] r l y = elim r [ ]
  assoc_get-found heap key (c ∷ cs) p ds [] r l y = elim r [ ]

  pub assoc_set-found :
      (heap heap' : Heap) (key value : Value) (cs : List ℕ) (p : ℕ) (ds : List ℕ) (xs : Assoc)
      → Represents heap (cs ++ (p ∷ ds)) xs
      → Lacks rt heap key cs
      → matches rt (heap p) key ≡ true
      → Distinct (cs ++ (p ∷ ds))
      → ((a : ℕ) → (heap' a).key ≡ (heap a).key)
      → ((a : ℕ) → a ≢ p → (heap' a).value ≡ (heap a).value)
      → (heap' p).value ≡ some value
      → Represents heap' (cs ++ (p ∷ ds)) (assoc_set rt key value xs)
  assoc_set-found heap heap' key value [] p ds ((k, v) ∷ xs) (a, b, r) l y d keys values new =
      let same = sym (differs (heap p) key k a) ∙ y in
      rw same (
        keys p ∙ a,
        new,
        Represents-frame heap heap' ds xs (λ c m. keys c)
            (λ c m. values c (λ e. ground (arith, d.0, rw e at m))) r,
      )
  assoc_set-found heap heap' key value (c ∷ cs) p ds ((k, v) ∷ xs) (a, b, r) l y d keys values new =
      let n = Lacks-head heap key k c cs l a in
      rw n (
        keys c ∙ a,
        values c (λ e. ground (arith, e, d.0, member-append_list c cs (p ∷ ds))) ∙ b,
        assoc_set-found heap heap' key value cs p ds xs r (Lacks-tail heap key c cs l) y d.1 keys
            values new,
      )
  assoc_set-found heap heap' key value [] p ds [] r l y d keys values new = elim r [ ]
  assoc_set-found heap heap' key value (c ∷ cs) p ds [] r l y d keys values new = elim r [ ]

  pub assoc_remove-found :
      (heap : Heap) (key : Value) (cs : List ℕ) (p : ℕ) (ds : List ℕ) (xs : Assoc)
      → Represents heap (cs ++ (p ∷ ds)) xs
      → Lacks rt heap key cs
      → matches rt (heap p) key ≡ true
      → Represents heap (cs ++ ds) (assoc_remove rt key xs)
  assoc_remove-found heap key [] p ds ((k, v) ∷ xs) (a, b, r) l y =
      let same = sym (differs (heap p) key k a) ∙ y in rw same r
  assoc_remove-found heap key (c ∷ cs) p ds ((k, v) ∷ xs) (a, b, r) l y =
      let n = Lacks-head heap key k c cs l a in
      rw n (a, b, assoc_remove-found heap key cs p ds xs r (Lacks-tail heap key c cs l) y)
  assoc_remove-found heap key [] p ds [] r l y = elim r [ ]
  assoc_remove-found heap key (c ∷ cs) p ds [] r l y = elim r [ ]

-- The keys of the list are ones on which the hash and `SameAs` agree.
abbrev pub AllKeys : Objects → Assoc → Type 0
AllKeys rt [] = Unit
AllKeys rt ((k, v) ∷ xs) = IsKey rt k × AllKeys rt xs

module _ (rt : Objects) where
  pub assoc_set-AllKeys :
      (key value : Value) (xs : Assoc)
      → IsKey rt key
      → AllKeys rt xs
      → AllKeys rt (assoc_set rt key value xs)
  assoc_set-AllKeys key value [] ik ks = (ik, tt)
  assoc_set-AllKeys key value ((k, v) ∷ xs) ik ks = elim (Bool-cases (same_as rt k key)) [
    | inl y ↦ rw y ks
    | inr n ↦ rw n (ks.0, assoc_set-AllKeys key value xs ik ks.1)
  ]

  pub assoc_remove-AllKeys :
      (key : Value) (xs : Assoc) → AllKeys rt xs → AllKeys rt (assoc_remove rt key xs)
  assoc_remove-AllKeys key [] ks = tt
  assoc_remove-AllKeys key ((k, v) ∷ xs) ks = elim (Bool-cases (same_as rt k key)) [
    | inl y ↦ rw y ks.1
    | inr n ↦ rw n (ks.0, assoc_remove-AllKeys key xs ks.1)
  ]

  pub Represents-KeysIn :
      (heap : Heap) (ps : List ℕ) (xs : Assoc)
      → Represents heap ps xs
      → AllKeys rt xs
      → KeysIn rt heap ps
  Represents-KeysIn heap [] [] r ks a m k e = absurd (ground (arith, m))
  Represents-KeysIn heap [] (_ ∷ xs) r ks a m k e = elim r [ ]
  Represents-KeysIn heap (p ∷ ps) [] r ks a m k e = elim r [ ]
  Represents-KeysIn heap (p ∷ ps) ((c, v) ∷ xs) (x, y, r) ks a m k e = elim (Bool-cases (p == a)) [
    | inl h ↦
        let same = ==→≡ p a h in let here : c ≡ k = ground (arith, same, x, e) in rw (sym here) ks.0
    | inr n ↦ Represents-KeysIn heap ps xs r ks.1 a (ground (arith, m, n)) k e
  ]
