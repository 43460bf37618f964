-- ===== src/Object/Chain.antt =====
-- Prototype chains, and `setProto`, which keeps them finite.
use sobek.Base.{
  member, ℕ, zero, suc, ◌≤◌, Bool, true, false, not, List, [], ◌∷◌, Option, none, some, ◌≡◌, inl,
  inr, refl, arith, ◌==◌, ==→≡, if◌then◌else◌, length, Bool-cases,
}
use sobek.Array.State.{Result, returned, refuse, state}
use sobek.Object.{Store, write_object}

-- From `o` the prototypes lead through the objects of the list, `o` first, to an object with none.
pub data Chain (s : Store) : ℕ → List ℕ → Type 0 where
  last : {o : ℕ} → (s o).prototype ≡ none → Chain s o (o ∷ [])
  next : {o p : ℕ} {ps : List ℕ} → (s o).prototype ≡ some p → Chain s p ps → Chain s o (o ∷ ps)

-- The loop of `setProto`: whether the object is among the prototypes from `p` on.
unfoldable pub reaches : ℕ → Store → (p : Option ℕ) → (o : ℕ) → Option Bool
reaches fuel s none o = some false
reaches zero s (some p) o = none
reaches (suc fuel) s (some p) o =
    let rest = reaches fuel s (s p).prototype o in if p == o then some true else rest

abbrev same_proto : Option ℕ → Option ℕ → Bool
same_proto none none = true
same_proto (some a) (some b) = a == b
same_proto _ _ = false

-- `setProto`. `object_prototype` is the runtime's `Object.prototype`.
unfoldable pub set_proto :
    ℕ → (object_prototype o : ℕ) → Option ℕ → (throw : Bool) → Store → Option (Result Store)
unfolding reaches
set_proto fuel object_prototype o proto throw s =
    if same_proto (s o).prototype proto
    then some (returned true s)
    else if o == object_prototype
    then some (refuse throw s)
    else if not (s o).extensible
    then some (refuse throw s)
    else elim (reaches fuel s proto o) [
      | none ↦ none
      | some true ↦ some (refuse throw s)
      | some false ↦ some (returned true (write_object o (record (s o) { prototype = proto }) s))
    ]

-- Every object has a finite chain.
abbrev pub Grounded : Store → Type 0
Grounded s = (o : ℕ) → (ps : List ℕ) × Chain s o ps

pub reaches-member :
    {ps : List ℕ} (fuel : ℕ) (s : Store) (p o : ℕ)
    → Chain s p ps
    → length ps ≤ fuel
    → reaches fuel s (some p) o ≡ some (member o ps)
unfolding reaches
reaches-member zero s p o (last e) le = absurd (omega arith)
reaches-member zero s p o (next e c) le = absurd (omega arith)
reaches-member (suc fuel) s p o (last e) le = ground (arith, e)
reaches-member (suc fuel) s p o (next e c) le =
    ground (arith, e, reaches-member fuel s _ o c (omega arith))

module _ (s : Store) (o : ℕ) (proto : Option ℕ) where
  abbrev pub relinked : Store
  relinked = write_object o (record (s o) { prototype = proto }) s

  -- A chain without the object is as it was.
  Chain-frame : {q : ℕ} {qs : List ℕ} → Chain s q qs → member o qs ≡ false → Chain relinked q qs
  Chain-frame (last {o = q} e) out = last (ground (arith, e))
  Chain-frame (next {o = q} e c) out = next (ground (arith, e)) (Chain-frame c (ground arith))

  -- With a chain for the object itself, every object has one.
  Chain-relinked :
      {ps : List ℕ}
      → Chain relinked o ps
      → {q : ℕ} {qs : List ℕ} → Chain s q qs
      → (rs : List ℕ) × Chain relinked q rs
  Chain-relinked {ps} new (last {o = q} e) = elim (Bool-cases (q == o)) [
    | inl y ↦ let same = ==→≡ q o y in (ps, rw same new)
    | inr n ↦ (_, last (ground (arith, e, n)))
  ]
  Chain-relinked {ps} new (next {o = q} e c) = elim (Bool-cases (q == o)) [
    | inl y ↦ let same = ==→≡ q o y in (ps, rw same new)
    | inr n ↦ let (rs, d) = Chain-relinked new c in (_, next (ground (arith, e, n)) d)
  ]

module _ (s : Store) (o : ℕ) (g : Grounded s) where
  unlinked-Grounded : Grounded (relinked s o none)
  unlinked-Grounded q = let (qs, c) = g q in Chain-relinked s o none (last (ground arith)) c

  linked-Grounded : (p : ℕ) → member o (g p).0 ≡ false → Grounded (relinked s o (some p))
  linked-Grounded p out q =
      let (ps, c) = g p in
      let (qs, d) = g q in
      Chain-relinked s o (some p) (next (ground arith) (Chain-frame s o (some p) c out)) d

-- Setting a prototype keeps every chain finite, and has a result where the fuel is as much as the
-- length of the new prototype's chain.
pub set_proto-Grounded :
    (fuel object_prototype o : ℕ) (proto : Option ℕ) (throw : Bool) (s : Store) (g : Grounded s)
    → ((p : ℕ) → proto ≡ some p → length (g p).0 ≤ fuel)
    → (r : Result Store) × (set_proto fuel object_prototype o proto throw s ≡ some r)
      × Grounded (state r)
unfolding set_proto
set_proto-Grounded fuel object_prototype o proto throw s g enough =
    elim (Bool-cases (same_proto (s o).prototype proto)) [
      | inl y ↦ (returned true s, rw y refl, g)
      | inr n ↦ elim (Bool-cases (o == object_prototype)) [
        | inl y ↦ (refuse throw s, rw (n, y) refl, refused throw)
        | inr n' ↦ elim (Bool-cases (s o).extensible) [
          | inr y ↦ (refuse throw s, rw (n, n', y) refl, refused throw)
          | inl e ↦ rw (n, n', e) (walk proto enough)
        ]
      ]
    ]
  where
    refused : (throw : Bool) → Grounded (state (refuse throw s))
    refused true = g
    refused false = g

    walk :
        (proto : Option ℕ)
        → ((p : ℕ) → proto ≡ some p → length (g p).0 ≤ fuel)
        → (r : Result Store) × ((elim (reaches fuel s proto o) [
          | none ↦ none
          | some true ↦ some (refuse throw s)
          | some false ↦
              some (returned true (write_object o (record (s o) { prototype = proto }) s))
        ])
            ≡ some r)
          × Grounded (state r)
    walk none enough = (returned true (relinked s o none), refl, unlinked-Grounded s o g)
    walk (some p) enough = elim (Bool-cases (member o (g p).0)) [
      | inl y ↦ (
        refuse throw s,
        rw (reaches-member fuel s p o (g p).1 (enough p refl), y) refl,
        refused throw,
      )
      | inr n ↦ (
        returned true (relinked s o (some p)),
        rw (reaches-member fuel s p o (g p).1 (enough p refl), n) refl,
        linked-Grounded s o g p n,
      )
    ]
