-- ===== src/OrderedMap/Cleared.antt =====
-- `clear` while an iterator is on its way: its entries are marked as removed, so it starts afresh.
use sobek.Base.{
  member, Distinct, ℕ, zero, suc, ◌≤◌, ◌<◌, true, false, List, [], ◌∷◌, ◌++◌, Option, none, some,
  ◌≡◌, ◌≢◌, inl, inr, refl, arith, ◌==◌, ==→≡, is_some, length, Bool-cases, ◌∙◌, sym,
}
use sobek.Value.{Value}
use sobek.OrderedMap.{Heap, OrderedMap, OrderedMapIter, clear_entry, set_next, clear_loop, clear}
use sobek.OrderedMap.Links.{
  Seg, Seg-frame, Backs, Backs-frame, Backs-split, last_or, member-append_list,
}
use sobek.OrderedMap.Find.{WellFormed}
use sobek.OrderedMap.Contents.{clear-WellFormed}
use sobek.OrderedMap.Iterator.{Back, at_start, past, Ready}
use sobek.OrderedMap.Meanwhile.{Back-frame}

-- One round of the loop.
abbrev cleared : ℕ → Heap → Heap
cleared p h =
    let h' = clear_entry p h in elim (h' p).iter_prev [ none ↦ h' | some l ↦ set_next l none h' ]

module _ (p : ℕ) (h : Heap) where
  record Round : Type 0 where
    gone : (cleared p h p).key ≡ none
    dead : (a : ℕ) → is_some (h a).key ≡ false → is_some (cleared p h a).key ≡ false
    prev : (a : ℕ) → (cleared p h a).iter_prev ≡ (h a).iter_prev
    next : (a : ℕ) → (h p).iter_prev ≢ some a → (cleared p h a).iter_next ≡ (h a).iter_next

  cleared-Round : Round
  cleared-Round = by_prev (h p).iter_prev refl
    where
      by_prev : (o : Option ℕ) → (h p).iter_prev ≡ o → Round
      by_prev o e = record {
        gone = ground (arith, e);
        dead = λ a d. ground (arith, e, d);
        prev = λ a. ground (arith, e);
        next = λ a n. ground (arith, e, n);
      }

-- What the loop leaves of the entries.
record Emptied (cells : List ℕ) (h h' : Heap) : Type 0 where
  gone : (a : ℕ) → member a cells ≡ true → is_some (h' a).key ≡ false
  dead : (a : ℕ) → is_some (h a).key ≡ false → is_some (h' a).key ≡ false
  prev : (a : ℕ) → (h' a).iter_prev ≡ (h a).iter_prev

clear_loop-Emptied :
    (cells : List ℕ) (fuel : ℕ) (h : Heap) (first q : Option ℕ)
    → Seg (λ a. (h a).iter_next) first cells none
    → Backs (λ a. (h a).iter_prev) q cells
    → ((l : ℕ) → q ≡ some l → member l cells ≡ false)
    → Distinct cells
    → length cells ≤ fuel
    → Emptied cells h (clear_loop fuel first h)
unfolding clear_loop
clear_loop-Emptied [] fuel h first q c b out d le =
    rw c (record { gone = λ a m. absurd (ground (arith, m)); dead = λ a k. k; prev = λ a. refl })
clear_loop-Emptied (p ∷ cells) zero h first q c b out d le = absurd (omega (arith, le))
clear_loop-Emptied (p ∷ cells) (suc fuel) h first q (e, c) (eq, b) out d le =
    let round = cleared-Round p h in
    let apart : (a : ℕ) → member a (p ∷ cells) ≡ true → (h p).iter_prev ≢ some a =
      λ a m k. ground (arith, m, out a (sym eq ∙ k)) in
    let onward = round.next p (apart p (ground arith)) in
    let ih =
      clear_loop-Emptied cells fuel (cleared p h) (cleared p h p).iter_next (some p)
        (rw onward (
          Seg-frame (λ a. (h a).iter_next) (λ a. (cleared p h a).iter_next) (h p).iter_next none
            cells (λ a m. round.next a (apart a (ground (arith, m)))) c))
        (Backs-frame (λ a. (h a).iter_prev) (λ a. (cleared p h a).iter_prev) (some p) cells
          (λ a m. round.prev a) b)
        (λ l k. ground (arith, k, d.0)) d.1 (omega (arith, le)) in
    rw e (record {
      gone = λ a m. elim (Bool-cases (p == a)) [
        | inl y ↦
            let same = ==→≡ p a y in
            let none_now = round.gone in rw (sym same) (ih.dead p (rw none_now refl))
        | inr n ↦ ih.gone a (ground (arith, m, n))
      ];
      dead = λ a k. ih.dead a (round.dead a k);
      prev = λ a. ih.prev a ∙ round.prev a;
    })

-- Back over removed entries to the start.
Back-all :
    (h : Heap) (bound : ℕ) (q : Option ℕ) (ps : List ℕ)
    → Backs (λ a. (h a).iter_prev) q ps
    → ((a : ℕ) → member a ps ≡ true → a < bound)
    → ((a : ℕ) → member a ps ≡ true → is_some (h a).key ≡ false)
    → Back h bound q none
    → Back h bound (last_or q ps) none
Back-all h bound q [] b below gone back = back
Back-all h bound q (p ∷ ps) (e, b) below gone back =
    Back-all h bound (some p) ps b (λ a m. below a (ground (arith, m)))
      (λ a m. gone a (ground (arith, m)))
      (past (below p (ground arith)) (gone p (ground arith)) (rw e back))

-- Clearing a well-formed map takes an open iterator, which leads back to the last entry given, to the
-- start of the map, which is well formed and has no entry.
pub clear-Ready :
    (hash : Value → ℕ) (m : OrderedMap) (given rest : List ℕ) (iter : OrderedMapIter)
    → WellFormed hash m (given ++ rest)
    → Ready m given rest iter
    → WellFormed hash (clear m) [] × Ready (clear m) [] [] iter
unfolding clear
clear-Ready hash m given rest iter w r =
    let le = w.count in
    let emptied =
      clear_loop-Emptied (given ++ rest) m.size m.heap m.iter_first none w.forth w.back
        (λ l k. absurd (ground (arith, k))) w.distinct (omega (arith, le)) in
    let h' = clear_loop m.size m.iter_first m.heap in
    let was : (a : ℕ) → member a given ≡ true → member a (given ++ rest) ≡ true =
      λ a i. ground (arith, member-append_list a given rest, i) in
    let walked : Back h' m.fresh (last_or none given) none =
      Back-all h' m.fresh none given
        (Backs-frame (λ a. (m.heap a).iter_prev) (λ a. (h' a).iter_prev) none given
          (λ a i. emptied.prev a)
          (Backs-split (λ a. (m.heap a).iter_prev) none given rest w.back).0)
        (λ a i. w.below a (was a i)) (λ a i. emptied.gone a (was a i)) at_start in
    (
      clear-WellFormed hash m,
      record {
        opened = r.opened;
        back =
            Back-frame m.heap h' m.fresh m.fresh (omega arith) r.back (λ a lt k. emptied.dead a k)
              (λ a lt k. emptied.prev a) (λ e. refl) (λ p e lt k. rw e at walked);
      },
    )
