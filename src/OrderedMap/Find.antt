-- ===== src/OrderedMap/Find.antt =====
-- The state that the operations keep, and what `lookup` finds in it.
use sobek.Base.{
  member, Distinct, ℕ, zero, suc, ◌≤◌, ◌<◌, true, false, List, [], ◌∷◌, ◌++◌, Option, none, some,
  ◌≡◌, ◌⊎◌, inl, inr, refl, arith, ◌==◌, ==→≡, is_some, length, Bool-cases,
}
use sobek.Value.{Value, Objects, same_as, Hashes, hash_value}
use sobek.Value.Hashing.{IsKey, hash_value-of_same}
use sobek.OrderedMap.{MapEntry, Heap, OrderedMap, matches, find, lookup, normal}
use sobek.OrderedMap.Links.{member-append_list, Seg, Backs, last_or}
use sobek.OrderedMap.Buckets.{in_bucket, bucket, length-bucket, bucket-member, bucket-Split}

-- The entries of a map, in order: the links between them, and the chains of the hash table.
pub record WellFormed (hash : Value → ℕ) (m : OrderedMap) (cells : List ℕ) : Type 0 where
  pub forth : Seg (λ a. (m.heap a).iter_next) m.iter_first cells none
  pub back : Backs (λ a. (m.heap a).iter_prev) none cells
  pub final : m.iter_last ≡ last_or none cells
  pub distinct : Distinct cells
  pub below : (a : ℕ) → member a cells ≡ true → a < m.fresh
  pub keyed : (a : ℕ) → member a cells ≡ true → is_some (m.heap a).key ≡ true
  pub buckets :
      (h : ℕ) → Seg (λ a. (m.heap a).h_next) (m.hash_table h) (bucket hash m.heap h cells) none
  pub count : m.size ≡ length cells

-- The entries' keys are ones on which the hash and `SameAs` agree.
abbrev pub KeysIn : Objects → Heap → List ℕ → Type 0
KeysIn rt heap ps = (a : ℕ) → member a ps ≡ true → (k : Value) → (heap a).key ≡ some k → IsKey rt k

-- No entry of the list has the key.
abbrev pub Lacks : Objects → Heap → Value → List ℕ → Type 0
Lacks rt heap key ps = (a : ℕ) → member a ps ≡ true → matches rt (heap a) key ≡ false

module _ (rt : Objects) (hs : Hashes) where
  abbrev hash : Value → ℕ
  hash = hash_value hs

  -- What the loop of `lookup` comes to along a chain.
  abbrev FoundIn : ℕ → Heap → Value → Option ℕ → Option ℕ → List ℕ → Type 0
  FoundIn fuel heap key s q ps =
      ((find rt hs fuel heap key s q ≡ some (none, last_or q ps)) × Lacks rt heap key ps)
      ⊎ ((xs : List ℕ) × (p : ℕ) × (ys : List ℕ) × (ps ≡ xs ++ (p ∷ ys))
          × (find rt hs fuel heap key s q ≡ some (some p, last_or q xs))
          × (matches rt (heap p) key ≡ true)
          × Lacks rt heap key xs)

  Lacks-cons :
      (heap : Heap) (key : Value) (p : ℕ) (ps : List ℕ)
      → matches rt (heap p) key ≡ false
      → Lacks rt heap key ps
      → Lacks rt heap key (p ∷ ps)
  Lacks-cons heap key p ps n l a m = elim (Bool-cases (p == a)) [
    | inl y ↦ let same = ==→≡ p a y in rw same at n
    | inr k ↦ l a (ground (arith, m, k))
  ]

  find-FoundIn :
      (ps : List ℕ) (fuel : ℕ) (heap : Heap) (key : Value) (s q : Option ℕ)
      → Seg (λ a. (heap a).h_next) s ps none
      → length ps ≤ fuel
      → FoundIn fuel heap key s q ps
  unfolding find
  find-FoundIn [] fuel heap key s q c le = inl (rw c refl, λ a m. absurd (ground (arith, m)))
  find-FoundIn (p ∷ ps) zero heap key s q c le = absurd (omega arith)
  find-FoundIn (p ∷ ps) (suc fuel) heap key s q (e, c) le =
      rw e (elim (Bool-cases (matches rt (heap p) key)) [
        | inl y ↦ inr ([], p, ps, refl, rw y refl, y, λ a m. absurd (ground (arith, m)))
        | inr n ↦ elim (find-FoundIn ps fuel heap key (heap p).h_next (some p) c (omega arith)) [
          | inl (f, l) ↦ inl (rw n f, Lacks-cons heap key p ps n l)
          | inr (xs, r, ys, split, f, y, l) ↦
              inr (p ∷ xs, r, ys, rw split refl, rw n f, y, Lacks-cons heap key p xs n l)
        ]
      ])

  -- The entry with a key, or that there is none; and the last entry of the chain before it.
  abbrev pub LookedUp : Value → OrderedMap → List ℕ → Type 0
  LookedUp key m cells =
      ((lookup rt hs key m
          ≡ some (none, last_or none (bucket hash m.heap (hash (normal key)) cells)))
        × Lacks rt m.heap (normal key) cells)
      ⊎ ((cs : List ℕ) × (p : ℕ) × (ds : List ℕ) × (cells ≡ cs ++ (p ∷ ds))
          × (lookup rt hs key m
              ≡ some (some p, last_or none (bucket hash m.heap (hash (normal key)) cs)))
          × (matches rt (m.heap p) (normal key) ≡ true)
          × Lacks rt m.heap (normal key) cs
          × (in_bucket hash (hash (normal key)) (m.heap p).key ≡ true))

  matches-in_bucket :
      (e : MapEntry) (key : Value)
      → IsKey rt key
      → ((k : Value) → e.key ≡ some k → IsKey rt k)
      → matches rt e key ≡ true
      → in_bucket hash (hash key) e.key ≡ true
  matches-in_bucket e key ik ie y = by_key e.key refl y
    where
      by_key :
          (k : Option Value)
          → e.key ≡ k
          → (elim k [ none ↦ false | some v ↦ same_as rt v key ]) ≡ true
          → in_bucket hash (hash key) k ≡ true
      by_key none x y = absurd (ground (arith, y))
      by_key (some k) x y = ground (arith, hash_value-of_same rt hs k key (ie k x) ik y)

  Lacks-of_bucket :
      (heap : Heap) (key : Value) (ps : List ℕ)
      → IsKey rt key
      → KeysIn rt heap ps
      → Lacks rt heap key (bucket hash heap (hash key) ps)
      → Lacks rt heap key ps
  Lacks-of_bucket heap key ps ik ks l a m = elim (Bool-cases (matches rt (heap a) key)) [
    | inl y ↦
        l a
          (bucket-member hash heap (hash key) a ps m (matches-in_bucket (heap a) key ik (ks a m) y))
    | inr n ↦ n
  ]

  pub lookup-LookedUp :
      (key : Value) (m : OrderedMap) (cells : List ℕ)
      → IsKey rt (normal key)
      → KeysIn rt m.heap cells
      → WellFormed hash m cells
      → LookedUp key m cells
  unfolding lookup
  lookup-LookedUp key m cells ik ks w =
      let h = hash (normal key) in
      let le = length-bucket hash m.heap h cells in
      elim (find-FoundIn (bucket hash m.heap h cells) m.size m.heap (normal key) (m.hash_table h)
        none (w.buckets h) (omega (arith, le, w.count))) [
          | inl (f, l) ↦ inl (f, Lacks-of_bucket m.heap (normal key) cells ik ks l)
          | inr (xs, p, ys, split, f, y, l) ↦
              let (cs, ds, e, b, d, k) = bucket-Split hash m.heap h cells xs ys p split in
              let ks' : KeysIn rt m.heap cs =
                λ a i. ks a (ground (arith, e, member-append_list a cs (p ∷ ds), i)) in
              inr
                (cs, p, ds, e, rw b f, y, Lacks-of_bucket m.heap (normal key) cs ik ks' (rw b l), k)
        ]
