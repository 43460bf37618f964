-- ===== src/OrderedMap/Iterator.antt =====
-- The iterator: it goes on with the entry after the latest one it has given that is still there.
use sobek.Base.{
  member, ℕ, zero, suc, ◌+◌, ◌≤◌, ◌<◌, true, false, List, [], ◌∷◌, ◌++◌, Option, none, some, ◌≡◌,
  refl, arith, is_some,
}
use sobek.Value.{Value}
use sobek.OrderedMap.{Heap, OrderedMap, OrderedMapIter, track_back, moved, next}
use sobek.OrderedMap.Links.{
  Seg-last, Seg, Seg-head, last_or, head_or, last_or-append, member-append_list,
}
use sobek.OrderedMap.Find.{WellFormed}

-- Back past entries that have been removed, to one that has not or to the start.
pub data Back (heap : Heap) (bound : ℕ) : Option ℕ → Option ℕ → Type 0 where
  at_start : Back heap bound none none
  at_entry : {p : ℕ} → p < bound → is_some (heap p).key ≡ true → Back heap bound (some p) (some p)
  past :
      {p : ℕ} {o : Option ℕ}
      → p < bound
      → is_some (heap p).key ≡ false
      → Back heap bound (heap p).iter_prev o
      → Back heap bound (some p) o

-- The entries of the first list have been given, unless they came before one that was, and those of
-- the second are still to come.
pub record Ready (m : OrderedMap) (given rest : List ℕ) (iter : OrderedMapIter) : Type 0 where
  pub opened : iter.is_open ≡ true
  pub back : Back m.heap m.fresh iter.cur (last_or none given)

module _ (heap : Heap) (p : ℕ) where
  track_back-entry :
      (fuel : ℕ)
      → 1 ≤ fuel
      → is_some (heap p).key ≡ true
      → track_back fuel heap (some p) ≡ some (some p)
  unfolding track_back
  track_back-entry zero le k = absurd (omega arith)
  track_back-entry (suc fuel) le k = rw k refl

  track_back-past :
      (n fuel : ℕ) (o : Option ℕ)
      → suc n ≤ fuel
      → is_some (heap p).key ≡ false
      → ((f : ℕ) → n ≤ f → track_back f heap (heap p).iter_prev ≡ some o)
      → track_back fuel heap (some p) ≡ some o
  unfolding track_back
  track_back-past n zero o le k enough = absurd (omega arith)
  track_back-past n (suc fuel) o le k enough = rw k (enough fuel (omega arith))

track_back-Back :
    (heap : Heap) (bound : ℕ) {cur o : Option ℕ}
    → Back heap bound cur o
    → (n : ℕ) × ((fuel : ℕ) → n ≤ fuel → track_back fuel heap cur ≡ some o)
unfolding track_back
track_back-Back heap bound at_start = (0, λ fuel le. refl)
track_back-Back heap bound (at_entry {p} lt k) = (1, λ fuel le. track_back-entry heap p fuel le k)
track_back-Back heap bound {o = o} (past {p} lt k b) =
    let (n, enough) = track_back-Back heap bound b in
    (suc n, λ fuel le. track_back-past heap p n fuel o le k enough)

-- What is left to do after `next`.
abbrev pub GoesOn : OrderedMap → List ℕ → List ℕ → Type 0
GoesOn m given [] = Unit
GoesOn m given (p ∷ rest) = Ready m (given ++ (p ∷ [])) rest (moved (some p))

given-GoesOn :
    (hash : Value → ℕ) (m : OrderedMap) (given rest : List ℕ)
    → WellFormed hash m (given ++ rest)
    → GoesOn m given rest
given-GoesOn hash m given [] w = tt
given-GoesOn hash m given (p ∷ rest) w =
    let i : member p (given ++ (p ∷ rest)) ≡ true =
      ground (arith, member-append_list p given (p ∷ rest)) in
    record {
      opened = refl;
      back = rw (last_or-append none given (p ∷ [])) (at_entry (w.below p i) (w.keyed p i));
    }

going_on :
    (m : OrderedMap) (ps rest : List ℕ)
    → Seg (λ a. (m.heap a).iter_next) m.iter_first (ps ++ rest) none
    → ◌≡◌ {A = Option (Option ℕ × OrderedMapIter)}
        (elim (last_or none ps) [
          | none ↦ some (m.iter_first, moved m.iter_first)
          | some p ↦ some ((m.heap p).iter_next, moved (m.heap p).iter_next)
        ])
        (some (head_or none rest, moved (head_or none rest)))
going_on m [] rest c =
    let e = Seg-head (λ a. (m.heap a).iter_next) m.iter_first none rest c in rw e refl
going_on m (p ∷ ps) rest c =
    let (l, a, e) = Seg-last (λ a. (m.heap a).iter_next) p none ps rest c.1 in rw (a, e) refl

-- In a well-formed map, an open iterator that leads back to the last entry given already, past any
-- that have been removed: there is a fuel from which on `next` gives the first entry still to come,
-- which then counts as given, or gives none and closes the iterator where there is none to come.
pub next-Ready :
    (hash : Value → ℕ) (m : OrderedMap) (given rest : List ℕ) (iter : OrderedMapIter)
    → WellFormed hash m (given ++ rest)
    → Ready m given rest iter
    → ((n : ℕ) × ((more : ℕ)
          → next (n + more) m iter ≡ some (head_or none rest, moved (head_or none rest))))
      × GoesOn m given rest
unfolding next
next-Ready hash m given rest iter w r =
    let (n, enough) = track_back-Back m.heap m.fresh r.back in
    (
      (n, λ more. rw (r.opened, enough (n + more) (omega arith)) (going_on m given rest w.forth)),
      given-GoesOn hash m given rest w,
    )
