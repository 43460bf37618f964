-- ===== src/OrderedMap/Insert.antt =====
-- `insert`: the new entry stands at the end of the list and of its chain.
use sobek.Base.{
  member, Distinct-append, member-append, ℕ, suc, true, false, List, [], ◌∷◌, ◌++◌, Option, none,
  some, ◌≡◌, ◌≢◌, inl, inr, refl, arith, ◌==◌, ==→≡, length-append, Bool-cases, ◌∙◌, sym,
}
use sobek.Value.{Value}
use sobek.OrderedMap.{OrderedMap, insert, normal}
use sobek.OrderedMap.Links.{
  Seg, Seg-append, Seg-frame, Seg-retarget, Backs, Backs-append, Backs-frame, last_or,
  last_or-append, last-member, last-elim,
}
use sobek.OrderedMap.Buckets.{
  in_bucket, bucket, bucket-append, bucket-frame, Distinct-bucket, member-bucket, bucket-append_out,
  bucket-apart,
}
use sobek.OrderedMap.Find.{WellFormed}

module _ (key value : Value) (h : ℕ) (h_prev : Option ℕ) (m : OrderedMap) where
  abbrev inserted : OrderedMap
  inserted = insert key value h h_prev m

  -- The fields afterwards.
  pub record Inserted : Type 0 where
    pub next_new : m.iter_last ≢ some m.fresh → (inserted.heap m.fresh).iter_next ≡ none
    next_last :
        (l : ℕ) → m.iter_last ≡ some l → l ≢ m.fresh → (inserted.heap l).iter_next ≡ some m.fresh
    pub next_same :
        (a : ℕ)
        → a ≢ m.fresh
        → m.iter_last ≢ some a
        → (inserted.heap a).iter_next ≡ (m.heap a).iter_next
    pub prev_new : (inserted.heap m.fresh).iter_prev ≡ m.iter_last
    pub prev_same : (a : ℕ) → a ≢ m.fresh → (inserted.heap a).iter_prev ≡ (m.heap a).iter_prev
    hash_new : h_prev ≢ some m.fresh → (inserted.heap m.fresh).h_next ≡ none
    hash_prev : (q : ℕ) → h_prev ≡ some q → q ≢ m.fresh → (inserted.heap q).h_next ≡ some m.fresh
    hash_same :
        (a : ℕ) → a ≢ m.fresh → h_prev ≢ some a → (inserted.heap a).h_next ≡ (m.heap a).h_next
    pub key_new : (inserted.heap m.fresh).key ≡ some (normal key)
    pub key_same : (a : ℕ) → a ≢ m.fresh → (inserted.heap a).key ≡ (m.heap a).key
    pub value_new : (inserted.heap m.fresh).value ≡ some value
    pub value_same : (a : ℕ) → a ≢ m.fresh → (inserted.heap a).value ≡ (m.heap a).value
    table_at :
        inserted.hash_table h ≡ (elim h_prev [ none ↦ some m.fresh | some q ↦ m.hash_table h ])
    table_same : (k : ℕ) → (k == h) ≡ false → inserted.hash_table k ≡ m.hash_table k
    first : inserted.iter_first ≡ (elim m.iter_last [ none ↦ some m.fresh | some l ↦ m.iter_first ])
    final : inserted.iter_last ≡ some m.fresh
    pub fresh : inserted.fresh ≡ suc m.fresh
    count : inserted.size ≡ suc m.size

pub insert-Inserted :
    (key value : Value) (h : ℕ) (h_prev : Option ℕ) (m : OrderedMap) → Inserted key value h h_prev m
unfolding insert
insert-Inserted key value h h_prev m = by_links h_prev m.iter_last refl refl
  where
    by_links : (o i : Option ℕ) → h_prev ≡ o → m.iter_last ≡ i → Inserted key value h h_prev m
    by_links o i e' e = record {
      next_new = λ n. ground (arith, e, e', n);
      next_last = λ l e1 n. ground (arith, e, e', e1, n);
      next_same = λ a n n'. ground (arith, e, e', n, n');
      prev_new = ground (arith, e, e');
      prev_same = λ a n. ground (arith, e, e', n);
      hash_new = λ n. ground (arith, e, e', n);
      hash_prev = λ q e1 n. ground (arith, e, e', e1, n);
      hash_same = λ a n n'. ground (arith, e, e', n, n');
      key_new = ground (arith, e, e');
      key_same = λ a n. ground (arith, e, e', n);
      value_new = ground (arith, e, e');
      value_same = λ a n. ground (arith, e, e', n);
      table_at = ground (arith, e, e');
      table_same = λ k n. ground (arith, e, e', n);
      first = ground (arith, e, e');
      final = ground (arith, e, e');
      fresh = ground (arith, e, e');
      count = ground (arith, e, e');
    }

module _ (hash : Value → ℕ) (key value : Value) (m : OrderedMap) (cells : List ℕ)
    (w : WellFormed hash m cells) where
  abbrev here : ℕ
  here = hash (normal key)

  abbrev chain : List ℕ
  chain = bucket hash m.heap here cells

  abbrev after : OrderedMap
  after = inserted key value here (last_or none chain) m

  fields : Inserted key value here (last_or none chain) m
  fields = insert-Inserted key value here (last_or none chain) m

  old : (a : ℕ) → member a cells ≡ true → a ≢ m.fresh
  old a i e = ground (arith, w.below a i, e)

  old_chain : (a : ℕ) → member a chain ≡ true → a ≢ m.fresh
  old_chain a i = old a (member-bucket hash m.heap here a cells i)

  insert-forth : Seg (λ a. (after.heap a).iter_next) after.iter_first (cells ++ (m.fresh ∷ [])) none
  insert-forth =
      let i = w.final in
      let retargeted =
        Seg-retarget (λ a. (m.heap a).iter_next) (λ a. (after.heap a).iter_next) m.iter_first none
          (some m.fresh) cells w.distinct (λ a b n. fields.next_same a (old a b) (rw i n))
          (λ l e. fields.next_last l (i ∙ e) (old l (last-member l cells e))) w.forth in
      let start = fields.first ∙ (rw (i, last-elim (some m.fresh) m.iter_first cells) refl) in
      rw start (
        Seg-append (λ a. (after.heap a).iter_next) _ (some m.fresh) none cells (m.fresh ∷ [])
          retargeted
          (refl, fields.next_new (λ e. old m.fresh (last-member m.fresh cells (sym i ∙ e)) refl)))

  insert-back : Backs (λ a. (after.heap a).iter_prev) none (cells ++ (m.fresh ∷ []))
  insert-back =
      Backs-append (λ a. (after.heap a).iter_prev) none cells (m.fresh ∷ [])
        (Backs-frame (λ a. (m.heap a).iter_prev) (λ a. (after.heap a).iter_prev) none cells
          (λ a b. fields.prev_same a (old a b)) w.back)
        (fields.prev_new ∙ w.final, tt)

  bucket-after : (k : ℕ) → bucket hash after.heap k cells ≡ bucket hash m.heap k cells
  bucket-after k = bucket-frame hash m.heap after.heap k cells (λ a b. fields.key_same a (old a b))

  -- The chain of the new entry's hash.
  buckets-here :
      Seg
        (λ a. (after.heap a).h_next)
        (after.hash_table here)
        (bucket hash after.heap here (cells ++ (m.fresh ∷ [])))
        none
  buckets-here =
      let fresh_key = fields.key_new in
      let alone : bucket hash after.heap here (m.fresh ∷ []) ≡ m.fresh ∷ [] =
        rw fresh_key (ground arith) in
      let retargeted =
        Seg-retarget (λ a. (m.heap a).h_next) (λ a. (after.heap a).h_next) (m.hash_table here) none
          (some m.fresh) chain (Distinct-bucket hash m.heap here cells w.distinct)
          (λ a b n. fields.hash_same a (old_chain a b) n)
          (λ l e. fields.hash_prev l e (old_chain l (last-member l chain e))) (w.buckets here) in
      let start = fields.table_at ∙ last-elim (some m.fresh) (m.hash_table here) chain in
      rw (bucket-append hash after.heap here cells (m.fresh ∷ []), bucket-after here, alone, start)
        (Seg-append (λ a. (after.heap a).h_next) _ (some m.fresh) none chain (m.fresh ∷ [])
          retargeted
          (refl, fields.hash_new (λ e. old_chain m.fresh (last-member m.fresh chain e) refl)))

  buckets-elsewhere :
      (k : ℕ)
      → (k == here) ≡ false
      → Seg
          (λ a. (after.heap a).h_next)
          (after.hash_table k)
          (bucket hash after.heap k (cells ++ (m.fresh ∷ [])))
          none
  buckets-elsewhere k other =
      let fresh_key = fields.key_new in
      let out : in_bucket hash k (after.heap m.fresh).key ≡ false =
        rw fresh_key (ground (arith, other)) in
      rw
        (
          bucket-append_out hash after.heap k m.fresh cells out,
          bucket-after k,
          fields.table_same k other,
        )
        (Seg-frame (λ a. (m.heap a).h_next) (λ a. (after.heap a).h_next) (m.hash_table k) none
          (bucket hash m.heap k cells)
          (λ a b. fields.hash_same a (old a (member-bucket hash m.heap k a cells b)) (λ e.
            ground
              (arith, other, bucket-apart hash m.heap k here cells a b (last-member a chain e))))
          (w.buckets k))

  -- The new entry comes last.
  pub insert-WellFormed :
      WellFormed hash
        (insert key value (hash (normal key)) (last_or none chain) m)
        (cells ++ (m.fresh ∷ []))
  insert-WellFormed = record {
    forth = insert-forth;
    back = insert-back;
    final = fields.final ∙ sym (last_or-append none cells (m.fresh ∷ []));
    distinct = Distinct-append m.fresh cells (ground (arith, w.below m.fresh)) w.distinct;
    below = λ a b. ground (arith, fields.fresh, w.below a, member-append a m.fresh cells, b);
    keyed = λ a b. elim (Bool-cases (member a cells)) [
      | inl y ↦ let e = fields.key_same a (old a y) in rw e (w.keyed a y)
      | inr n ↦
          let same : a ≡ m.fresh = ground (arith, member-append a m.fresh cells, b, n) in
          let e = fields.key_new in rw (same, e) refl
    ];
    buckets = λ k. elim (Bool-cases (k == here)) [
      | inl y ↦ let same = ==→≡ k here y in rw same buckets-here
      | inr n ↦ buckets-elsewhere k n
    ];
    count = ground (arith, fields.count, w.count, length-append cells (m.fresh ∷ []));
  }
