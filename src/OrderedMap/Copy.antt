-- ===== src/OrderedMap/Copy.antt =====
-- `copyTo`: the entries are set in the other map, in their order.
use sobek.Base.{
  Bool-cases, inl, inr, ℕ, zero, suc, ◌≤◌, List, [], ◌∷◌, Option, none, some, ◌≡◌, refl, arith,
  length,
}
use sobek.Value.{
  Value, undefined, null, bool, int, float, string, symbol, big_int, object, Objects, Hashes,
  is_zero,
}
use sobek.Value.Hashing.{IsKey}
use sobek.OrderedMap.{Heap, OrderedMap, copy_loop, copy_to, normal}
use sobek.OrderedMap.Links.{Seg}
use sobek.OrderedMap.Assoc.{Assoc, AllKeys, assoc_set, Represents}
use sobek.OrderedMap.Contents.{Holds, set-Holds}

abbrev pub assoc_copy : Objects → Assoc → Assoc → Assoc
assoc_copy rt [] ys = ys
assoc_copy rt ((k, v) ∷ xs) ys = assoc_copy rt xs (assoc_set rt (normal k) v ys)

normal-IsKey : (rt : Objects) (k : Value) → IsKey rt k → IsKey rt (normal k)
normal-IsKey rt undefined i = tt
normal-IsKey rt null i = tt
normal-IsKey rt (bool b) i = tt
normal-IsKey rt (int n) i = tt
normal-IsKey rt (float f) i = elim (Bool-cases (is_zero f)) [ inl y ↦ rw y tt | inr n ↦ rw n i ]
normal-IsKey rt (string k s) i = tt
normal-IsKey rt (symbol a) i = tt
normal-IsKey rt (big_int n) i = tt
normal-IsKey rt (object o) i = i

module _ (rt : Objects) (hs : Hashes) where
  copy_loop-Holds :
      (cells : List ℕ) (fuel : ℕ) (heap : Heap) (first : Option ℕ) (xs ys : Assoc)
      (dest : OrderedMap)
      → Seg (λ a. (heap a).iter_next) first cells none
      → length cells ≤ fuel
      → Represents heap cells xs
      → AllKeys rt xs
      → Holds rt hs dest ys
      → (dest' : OrderedMap) × (copy_loop rt hs fuel heap first dest ≡ some dest')
        × Holds rt hs dest' (assoc_copy rt xs ys)
  unfolding copy_loop
  copy_loop-Holds [] fuel heap first [] ys dest c le p ks h = (dest, rw c refl, h)
  copy_loop-Holds [] fuel heap first (_ ∷ xs) ys dest c le p ks h = elim p [ ]
  copy_loop-Holds (a ∷ cells) fuel heap first [] ys dest c le p ks h = elim p [ ]
  copy_loop-Holds (a ∷ cells) zero heap first (_ ∷ xs) ys dest c le p ks h =
      absurd (omega (arith, le))
  copy_loop-Holds (a ∷ cells) (suc fuel) heap first ((k, v) ∷ xs) ys dest (e, c) le (ek, ev, p) ks
        h =
      let (d, es, hd) = set-Holds rt hs k (normal-IsKey rt k ks.0) dest ys v h in
      let (dest', er, hr) =
        copy_loop-Holds cells fuel heap (heap a).iter_next xs (assoc_set rt (normal k) v ys) d c
          (omega (arith, le)) p ks.1 hd in
      (dest', rw (e, copy_loop, ek, ev, es) er, hr)

  -- Copying one well-formed map to another comes to an end, and sets its pairs one after the other.
  pub copy_to-Holds :
      (m dest : OrderedMap) (xs ys : Assoc)
      → Holds rt hs m xs
      → Holds rt hs dest ys
      → (dest' : OrderedMap) × (copy_to rt hs m dest ≡ some dest')
        × Holds rt hs dest' (assoc_copy rt xs ys)
  unfolding copy_to
  copy_to-Holds m dest xs ys (cells, w, p, ks) h =
      let le = w.count in
      copy_loop-Holds cells m.size m.heap m.iter_first xs ys dest w.forth (omega (arith, le)) p ks h
