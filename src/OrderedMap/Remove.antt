-- ===== src/OrderedMap/Remove.antt =====
-- `remove`: the entry is taken out of the list and of its chain.
use sobek.Base.{
  member, ℕ, ◌-◌, true, false, List, ◌∷◌, ◌++◌, Option, none, some, ◌≡◌, ◌≢◌, inl, inr, refl, arith,
  ◌==◌, ==→≡, length-append, Bool-cases, ◌∙◌, sym,
}
use sobek.Value.{Value}
use sobek.OrderedMap.{OrderedMap, remove_entry, ℕ, Option}
use sobek.OrderedMap.Links.{
  Backs-split, Seg-split, Seg-head, Seg-frame, Seg, Backs, last_or, head_or, last-member, last-elim,
  member-append_list,
}
use sobek.OrderedMap.Unlink.{
  last-unlink, Distinct-unlink, Apart, Distinct-Apart, Seg-unlink, Backs-unlink,
}
use sobek.OrderedMap.Buckets.{
  other_bucket, in_bucket, bucket, bucket-append, bucket-frame, Distinct-bucket, bucket-apart,
}
use sobek.OrderedMap.Find.{WellFormed}

module _ (h p : ℕ) (h_prev : Option ℕ) (m : OrderedMap) where
  abbrev removed : OrderedMap
  removed = remove_entry h p h_prev m

  abbrev prev : Option ℕ
  prev = (m.heap p).iter_prev

  abbrev next : Option ℕ
  next = (m.heap p).iter_next

  -- The fields afterwards.
  pub record Removed : Type 0 where
    next_prev : (l : ℕ) → prev ≡ some l → (removed.heap l).iter_next ≡ next
    pub next_same : (a : ℕ) → prev ≢ some a → (removed.heap a).iter_next ≡ (m.heap a).iter_next
    prev_next : (r : ℕ) → next ≡ some r → (removed.heap r).iter_prev ≡ prev
    pub prev_same : (a : ℕ) → next ≢ some a → (removed.heap a).iter_prev ≡ (m.heap a).iter_prev
    hash_prev : (q : ℕ) → h_prev ≡ some q → (removed.heap q).h_next ≡ (m.heap p).h_next
    hash_same : (a : ℕ) → h_prev ≢ some a → (removed.heap a).h_next ≡ (m.heap a).h_next
    pub key_gone : (removed.heap p).key ≡ none
    pub key_same : (a : ℕ) → a ≢ p → (removed.heap a).key ≡ (m.heap a).key
    pub value_same : (a : ℕ) → a ≢ p → (removed.heap a).value ≡ (m.heap a).value
    table_at :
        removed.hash_table h ≡ (elim h_prev [ none ↦ (m.heap p).h_next | some q ↦ m.hash_table h ])
    table_same : (k : ℕ) → (k == h) ≡ false → removed.hash_table k ≡ m.hash_table k
    first : removed.iter_first ≡ (elim prev [ none ↦ next | some l ↦ m.iter_first ])
    final : removed.iter_last ≡ (elim next [ none ↦ prev | some r ↦ m.iter_last ])
    pub fresh : removed.fresh ≡ m.fresh
    count : removed.size ≡ m.size - 1

pub remove_entry-Removed : (h p : ℕ) (h_prev : Option ℕ) (m : OrderedMap) → Removed h p h_prev m
unfolding remove_entry
remove_entry-Removed h p h_prev m =
    by_links h_prev (m.heap p).iter_prev (m.heap p).iter_next refl refl refl
  where
    by_links :
        (o i j : Option ℕ)
        → h_prev ≡ o
        → (m.heap p).iter_prev ≡ i
        → (m.heap p).iter_next ≡ j
        → Removed h p h_prev m
    by_links o i j e e' e'' = record {
      next_prev = λ l e1. ground (arith, e, e', e'', e1);
      next_same = λ a n. ground (arith, e, e', e'', n);
      prev_next = λ r e1. ground (arith, e, e', e'', e1);
      prev_same = λ a n. ground (arith, e, e', e'', n);
      hash_prev = λ q e1. ground (arith, e, e', e'', e1);
      hash_same = λ a n. ground (arith, e, e', e'', n);
      key_gone = ground (arith, e, e', e'');
      key_same = λ a n. ground (arith, e, e', e'', n);
      value_same = λ a n. ground (arith, e, e', e'', n);
      table_at = ground (arith, e, e', e'');
      table_same = λ k n. ground (arith, e, e', e'', n);
      first = ground (arith, e, e', e'');
      final = ground (arith, e, e', e'');
      fresh = ground (arith, e, e', e'');
      count = ground (arith, e, e', e'');
    }

module _ (hash : Value → ℕ) (h p : ℕ) (m : OrderedMap) (cs ds : List ℕ)
    (w : WellFormed hash m (cs ++ (p ∷ ds))) (k : in_bucket hash h (m.heap p).key ≡ true) where
  abbrev chain : List ℕ
  chain = bucket hash m.heap h cs

  abbrev after : OrderedMap
  after = removed h p (last_or none chain) m

  fields : Removed h p (last_or none chain) m
  fields = remove_entry-Removed h p (last_or none chain) m

  split : Apart cs p ds
  split = Distinct-Apart cs p ds w.distinct

  pub prev_last : (m.heap p).iter_prev ≡ last_or none cs
  prev_last = (Backs-split (λ a. (m.heap a).iter_prev) none cs (p ∷ ds) w.back).1.0

  pub next_head : (m.heap p).iter_next ≡ head_or none ds
  next_head =
      let (u, front, at_p) =
        Seg-split (λ a. (m.heap a).iter_next) m.iter_first none cs (p ∷ ds) w.forth in
      Seg-head (λ a. (m.heap a).iter_next) (m.heap p).iter_next none ds at_p.1

  -- What is left is not the entry.
  left_before : (a : ℕ) → member a cs ≡ true → a ≢ p
  left_before a i e = ground (arith, split.apart a i, e)

  left_behind : (a : ℕ) → member a ds ≡ true → a ≢ p
  left_behind a i e = let out = rw e at i in ground (arith, split.out, out)

  pub left : (a : ℕ) → member a (cs ++ ds) ≡ true → a ≢ p
  left a i = elim (Bool-cases (member a cs)) [
    | inl y ↦ left_before a y
    | inr n ↦ left_behind a (ground (arith, member-append_list a cs ds, i, n))
  ]

  was : (a : ℕ) → member a (cs ++ ds) ≡ true → member a (cs ++ (p ∷ ds)) ≡ true
  was a i = ground (arith, member-append_list a cs ds, member-append_list a cs (p ∷ ds), i)

  remove-forth : Seg (λ a. (after.heap a).iter_next) after.iter_first (cs ++ ds) none
  remove-forth =
      let start =
        fields.first ∙ (rw (prev_last, last-elim (m.heap p).iter_next m.iter_first cs) refl) in
      rw start (
        Seg-unlink (λ a. (m.heap a).iter_next) (λ a. (after.heap a).iter_next) cs ds p w.distinct
          m.iter_first none (λ l e. fields.next_prev l (prev_last ∙ e))
          (λ a n. fields.next_same a (rw prev_last n)) w.forth)

  remove-back : Backs (λ a. (after.heap a).iter_prev) none (cs ++ ds)
  remove-back =
      Backs-unlink (λ a. (m.heap a).iter_prev) (λ a. (after.heap a).iter_prev) cs ds p w.distinct
        (λ b e. fields.prev_next b (next_head ∙ e) ∙ prev_last)
        (λ a n. fields.prev_same a (rw next_head n)) w.back

  bucket-after :
      (i : ℕ)
      → bucket hash after.heap i (cs ++ ds) ≡ bucket hash m.heap i cs ++ bucket hash m.heap i ds
  bucket-after i =
      bucket-frame hash m.heap after.heap i (cs ++ ds) (λ a b. fields.key_same a (left a b))
      ∙ bucket-append hash m.heap i cs ds

  -- The chain of the entry's hash.
  buckets-here :
      Seg
        (λ a. (after.heap a).h_next)
        (after.hash_table h)
        (bucket hash after.heap h (cs ++ ds))
        none
  buckets-here =
      let e : bucket hash m.heap h (cs ++ (p ∷ ds)) ≡ chain ++ (p ∷ bucket hash m.heap h ds) =
        bucket-append hash m.heap h cs (p ∷ ds) ∙ rw k refl in
      let chained = rw e at (w.buckets h) in
      let distinct = rw e at (Distinct-bucket hash m.heap h (cs ++ (p ∷ ds)) w.distinct) in
      let start = fields.table_at ∙ last-elim (m.heap p).h_next (m.hash_table h) chain in
      rw (bucket-after h, start)
        (Seg-unlink (λ a. (m.heap a).h_next) (λ a. (after.heap a).h_next) chain
          (bucket hash m.heap h ds) p distinct (m.hash_table h) none fields.hash_prev
          fields.hash_same chained)

  in_chain : (a : ℕ) → member a chain ≡ true → member a (bucket hash m.heap h (cs ++ ds)) ≡ true
  in_chain a i = ground (
    arith,
    bucket-append hash m.heap h cs ds,
    member-append_list a chain (bucket hash m.heap h ds),
    i,
  )

  buckets-elsewhere :
      (i : ℕ)
      → (i == h) ≡ false
      → Seg
          (λ a. (after.heap a).h_next)
          (after.hash_table i)
          (bucket hash after.heap i (cs ++ ds))
          none
  buckets-elsewhere i other =
      let out = other_bucket hash (m.heap p).key h i k other in
      let e : bucket hash m.heap i (cs ++ (p ∷ ds)) ≡ bucket hash m.heap i (cs ++ ds) =
        bucket-append hash m.heap i cs (p ∷ ds)
        ∙ (rw out (sym (bucket-append hash m.heap i cs ds))) in
      let chained = rw e at (w.buckets i) in
      rw (bucket-after i ∙ sym (bucket-append hash m.heap i cs ds), fields.table_same i other)
        (Seg-frame (λ a. (m.heap a).h_next) (λ a. (after.heap a).h_next) (m.hash_table i) none
          (bucket hash m.heap i (cs ++ ds))
          (λ a b. fields.hash_same a (λ l. ground (
            arith,
            other,
            bucket-apart hash m.heap i h (cs ++ ds) a b (in_chain a (last-member a chain l)),
          )))
          chained)

  -- The entry is gone, and the others stay in their order.
  pub remove_entry-WellFormed :
      WellFormed hash (remove_entry h p (last_or none (bucket hash m.heap h cs)) m) (cs ++ ds)
  remove_entry-WellFormed = record {
    forth = remove-forth;
    back = remove-back;
    final =
        fields.final
        ∙ last-unlink cs p ds (m.heap p).iter_next (m.heap p).iter_prev m.iter_last next_head
            prev_last w.final;
    distinct = Distinct-unlink cs p ds w.distinct;
    below = λ a b. ground (arith, fields.fresh, w.below a (was a b));
    keyed = λ a b. let e = fields.key_same a (left a b) in rw e (w.keyed a (was a b));
    buckets = λ i. elim (Bool-cases (i == h)) [
      | inl y ↦ let same = ==→≡ i h y in rw same buckets-here
      | inr n ↦ buckets-elsewhere i n
    ];
    count = ground (arith, fields.count, w.count, length-append cs ds, length-append cs (p ∷ ds));
  }
