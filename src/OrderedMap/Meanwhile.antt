-- ===== src/OrderedMap/Meanwhile.antt =====
-- Changes of the map while an iterator is on its way: it still gives what is still to come.
use sobek.Base.{
  member, ℕ, ◌≤◌, ◌<◌, true, false, List, [], ◌∷◌, ◌++◌, Option, none, some, ◌≡◌, ◌≢◌, refl, arith,
  is_some, ◌∙◌, sym,
}
use sobek.Value.{Value}
use sobek.OrderedMap.{Heap, OrderedMap, OrderedMapIter, insert, remove_entry}
use sobek.OrderedMap.Links.{last_or, last-member, head-member, member-append_list}
use sobek.OrderedMap.Buckets.{in_bucket, bucket}
use sobek.OrderedMap.Find.{WellFormed}
use sobek.OrderedMap.Insert.{insert-Inserted}
use sobek.OrderedMap.Unlink.{Distinct-Apart}
use sobek.OrderedMap.Remove.{Removed, remove_entry-Removed, next_head}
use sobek.OrderedMap.Iterator.{Back, at_start, at_entry, past, Ready}

module _ (heap heap' : Heap) (bound bound' : ℕ) (le : bound ≤ bound') where
  -- Removed entries stay removed and keep their way back; the one come to may have changed.
  pub Back-frame :
      {cur o : Option ℕ} {o' : Option ℕ}
      → Back heap bound cur o
      → ((a : ℕ) → a < bound → is_some (heap a).key ≡ false → is_some (heap' a).key ≡ false)
      → ((a : ℕ)
          → a < bound
          → is_some (heap a).key ≡ false
          → (heap' a).iter_prev ≡ (heap a).iter_prev)
      → (o ≡ none → o' ≡ none)
      → ((p : ℕ)
          → o ≡ some p
          → p < bound
          → is_some (heap p).key ≡ true
          → Back heap' bound' (some p) o')
      → Back heap' bound' cur o'
  Back-frame at_start dead prev start end = rw (start refl) at_start
  Back-frame (at_entry {p} lt k) dead prev start end = end p refl lt k
  Back-frame (past {p} lt k b) dead prev start end =
      let e = prev p lt k in
      past (omega (arith, lt, le)) (dead p lt k) (rw e (Back-frame b dead prev start end))

-- An insertion adds the new entry to what is still to come.
pub insert-Ready :
    (key value : Value) (h : ℕ) (h_prev : Option ℕ) (m : OrderedMap) (given rest : List ℕ)
    (iter : OrderedMapIter)
    → Ready m given rest iter
    → Ready (insert key value h h_prev m) given (rest ++ (m.fresh ∷ [])) iter
insert-Ready key value h h_prev m given rest iter r =
    let fields = insert-Inserted key value h h_prev m in
    let old : (a : ℕ) → a < m.fresh → a ≢ m.fresh = λ a lt e. omega (arith, lt, e) in
    let keys : (a : ℕ) → a < m.fresh → ((insert key value h h_prev m).heap a).key ≡ (m.heap a).key =
      λ a lt. fields.key_same a (old a lt) in
    record {
      opened = r.opened;
      back =
          Back-frame m.heap (insert key value h h_prev m).heap m.fresh
            (insert key value h h_prev m).fresh (omega (arith, fields.fresh)) r.back
            (λ a lt k. rw (keys a lt) k) (λ a lt k. fields.prev_same a (old a lt)) (λ e. e)
            (λ p e lt k. rw e (at_entry (omega (arith, fields.fresh, lt)) (rw (keys p lt) k)));
    }

module _ (hash : Value → ℕ) (h p : ℕ) (m : OrderedMap) (cs ds : List ℕ)
    (w : WellFormed hash m (cs ++ (p ∷ ds))) (k : in_bucket hash h (m.heap p).key ≡ true) where
  abbrev after : OrderedMap
  after = remove_entry h p (last_or none (bucket hash m.heap h cs)) m

  fields : Removed h p (last_or none (bucket hash m.heap h cs)) m
  fields = remove_entry-Removed h p (last_or none (bucket hash m.heap h cs)) m

  there : (a : ℕ) → member a (cs ++ (p ∷ ds)) ≡ true → is_some (m.heap a).key ≡ true
  there = w.keyed

  at_p : member p (cs ++ (p ∷ ds)) ≡ true
  at_p = ground (arith, member-append_list p cs (p ∷ ds))

  not_next : (a : ℕ) → is_some (m.heap a).key ≡ false → (m.heap p).iter_next ≢ some a
  not_next a gone e =
      let i = head-member a ds (sym (next_head hash h p m cs ds w k) ∙ e) in
      ground (arith, gone, there a (ground (arith, member-append_list a cs (p ∷ ds), i)))

  not_p : (a : ℕ) → is_some (m.heap a).key ≡ false → a ≢ p
  not_p a gone e = ground (arith, e, gone, there p at_p)

  Back-removed :
      (cur o o' : Option ℕ)
      → Back m.heap m.fresh cur o
      → (o ≡ none → o' ≡ none)
      → ((a : ℕ)
          → o ≡ some a
          → a < m.fresh
          → is_some (m.heap a).key ≡ true
          → Back after.heap m.fresh (some a) o')
      → Back after.heap after.fresh cur o'
  Back-removed cur o o' b start end = rw fields.fresh (
      Back-frame m.heap after.heap m.fresh m.fresh (omega arith) b
        (λ a lt gone. rw (fields.key_same a (not_p a gone)) gone)
        (λ a lt gone. fields.prev_same a (not_next a gone)) start end)

  -- Another one than the entry removed.
  stays :
      (a : ℕ) → a ≢ p → member a (cs ++ (p ∷ ds)) ≡ true → Back after.heap m.fresh (some a) (some a)
  stays a n i = at_entry (w.below a i) (rw (fields.key_same a n) (w.keyed a i))

-- The removal of an entry still to come leaves the others to come.
pub remove_entry-Ready_ahead :
    (hash : Value → ℕ) (h p : ℕ) (m : OrderedMap) (given rs ds : List ℕ) (iter : OrderedMapIter)
    → WellFormed hash m ((given ++ rs) ++ (p ∷ ds))
    → in_bucket hash h (m.heap p).key ≡ true
    → Ready m given (rs ++ (p ∷ ds)) iter
    → Ready
        (remove_entry h p (last_or none (bucket hash m.heap h (given ++ rs))) m)
        given
        (rs ++ ds)
        iter
remove_entry-Ready_ahead hash h p m given rs ds iter w k r =
    let cs = given ++ rs in
    let parts = Distinct-Apart cs p ds w.distinct in
    record {
      opened = r.opened;
      back =
          Back-removed hash h p m cs ds w k iter.cur (last_or none given) (last_or none given)
            r.back (λ e. e)
            (λ a e lt there.
              let i : member a cs ≡ true =
                ground (arith, member-append_list a given rs, last-member a given e) in
              rw e (
                stays hash h p m cs ds w k a (λ same. ground (arith, parts.apart a i, same))
                  (ground (arith, member-append_list a cs (p ∷ ds), i))));
    }
