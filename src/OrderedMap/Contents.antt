-- ===== src/OrderedMap/Contents.antt =====
-- `set`, `get`, `getOrInsert`, `remove`, `has` and `clear` on a map, as operations on the association
-- list that it stands for.
use sobek.Base.{
  member, ℕ, true, List, [], ◌∷◌, ◌++◌, none, some, ◌≡◌, ◌≢◌, inl, inr, refl, arith, ◌==◌, ==→≡,
  is_some, Bool-cases,
}
use sobek.Value.{Value, Objects, Hashes, hash_value}
use sobek.Value.Hashing.{IsKey}
use sobek.OrderedMap.{
  MapEntry, OrderedMap, insert, get, set, get_or_insert, has, remove, remove_entry, clear, normal,
  write_value, new_map,
}
use sobek.OrderedMap.Links.{last_or, Seg-frame, Backs-frame}
use sobek.OrderedMap.Buckets.{bucket, bucket-frame}
use sobek.OrderedMap.Find.{WellFormed, Lacks, lookup-LookedUp}
use sobek.OrderedMap.Insert.{insert-Inserted, insert-WellFormed}
use sobek.OrderedMap.Remove.{left, remove_entry-Removed, remove_entry-WellFormed}
use sobek.OrderedMap.Assoc.{
  AllKeys, assoc_set-AllKeys, assoc_remove-AllKeys, Represents-KeysIn, Assoc, assoc_get, assoc_set,
  assoc_remove, Represents, Represents-frame, Represents-append, assoc_get-Lacks, assoc_set-Lacks,
  assoc_remove-Lacks, assoc_get-found, assoc_set-found, assoc_remove-found,
}

-- What `write_value` leaves as it was.
module _ (rt : Objects) (hs : Hashes) (p : ℕ) (value : Value) (m : OrderedMap) where
  abbrev hash : Value → ℕ
  hash = hash_value hs

  abbrev written : OrderedMap
  written = write_value rt hs p value m

  -- A field other than the value.
  written_field :
      {A : Type 0}
      → (field : MapEntry → A) → field (record (m.heap p) { value = some value }) ≡ field (m.heap p)
      → (a : ℕ) → field (written.heap a) ≡ field (m.heap a)
  written_field field e a = elim (Bool-cases (a == p)) [
    | inl y ↦ let same = ==→≡ a p y in rw (y, same) e
    | inr n ↦ rw n refl
  ]

  written_key : (a : ℕ) → (written.heap a).key ≡ (m.heap a).key
  written_key = written_field (λ e. e.key) refl

  write_value-WellFormed :
      (cells : List ℕ) → WellFormed hash m cells → WellFormed hash written cells
  write_value-WellFormed cells w = record {
    forth =
        Seg-frame (λ a. (m.heap a).iter_next) (λ a. (written.heap a).iter_next) m.iter_first none
          cells (λ a b. written_field (λ e. e.iter_next) refl a) w.forth;
    back =
        Backs-frame (λ a. (m.heap a).iter_prev) (λ a. (written.heap a).iter_prev) none cells
          (λ a b. written_field (λ e. e.iter_prev) refl a) w.back;
    final = w.final;
    distinct = w.distinct;
    below = w.below;
    keyed = λ a b. rw (written_key a) (w.keyed a b);
    buckets = λ h.
        let e = bucket-frame hash m.heap written.heap h cells (λ a b. written_key a) in
        rw e (
          Seg-frame (λ a. (m.heap a).h_next) (λ a. (written.heap a).h_next) (m.hash_table h) none
            (bucket hash m.heap h cells) (λ a b. written_field (λ e. e.h_next) refl a)
            (w.buckets h));
    count = w.count;
  }

-- The map is well formed, its entries stand for the list, and the list's keys are ones on which the
-- hash and `SameAs` agree.
abbrev pub Holds : Objects → Hashes → OrderedMap → Assoc → Type 0
Holds rt hs m xs =
    (cells : List ℕ) × WellFormed (hash_value hs) m cells
    × Represents m.heap cells xs
    × AllKeys rt xs

pub new_map-WellFormed : (hash : Value → ℕ) → WellFormed hash new_map []
new_map-WellFormed hash = record {
  forth = refl;
  back = tt;
  final = refl;
  distinct = tt;
  below = λ a i. absurd (ground (arith, i));
  keyed = λ a i. absurd (ground (arith, i));
  buckets = λ h. refl;
  count = refl;
}

pub new_map-Holds : (rt : Objects) (hs : Hashes) → Holds rt hs new_map []
new_map-Holds rt hs = ([], new_map-WellFormed (hash_value hs), tt, tt)

module _ (rt : Objects) (hs : Hashes) (key : Value) (ik : IsKey rt (normal key)) (m : OrderedMap)
    (xs : Assoc) where
  abbrev hash' : Value → ℕ
  hash' = hash_value hs

  -- The key is in no entry, and an insertion adds it.
  insert-Holds :
      (value : Value) (cells : List ℕ)
      → WellFormed hash' m cells
      → Represents m.heap cells xs
      → AllKeys rt xs
      → Lacks rt m.heap (normal key) cells
      → Holds rt hs
          (insert key value
            (hash' (normal key))
            (last_or none (bucket hash' m.heap (hash' (normal key)) cells))
            m)
          (assoc_set rt (normal key) value xs)
  insert-Holds value cells w p ks l =
      let h_prev = last_or none (bucket hash' m.heap (hash' (normal key)) cells) in
      let after = insert key value (hash' (normal key)) h_prev m in
      let fields = insert-Inserted key value (hash' (normal key)) h_prev m in
      let old : (a : ℕ) → member a cells ≡ true → a ≢ m.fresh =
        λ a b e. ground (arith, w.below a b, e) in
      (
        cells ++ (m.fresh ∷ []),
        insert-WellFormed hash' key value m cells w,
        rw (assoc_set-Lacks rt m.heap (normal key) value cells xs p l) (
            Represents-append after.heap cells xs m.fresh (normal key) value
              (Represents-frame m.heap after.heap cells xs (λ a b. fields.key_same a (old a b))
                (λ a b. fields.value_same a (old a b)) p)
              fields.key_new fields.value_new),
        assoc_set-AllKeys rt (normal key) value xs ik ks,
      )

  pub set-Holds :
      (value : Value)
      → Holds rt hs m xs
      → (m' : OrderedMap) × (set rt hs key value m ≡ some m')
        × Holds rt hs m' (assoc_set rt (normal key) value xs)
  unfolding set
  set-Holds value (cells, w, p, ks) =
      elim (lookup-LookedUp rt hs key m cells ik (Represents-KeysIn rt m.heap cells xs p ks) w) [
        | inl (f, l) ↦ (_, rw (set, f) refl, insert-Holds value cells w p ks l)
        | inr (cs, q, ds, e, f, y, l, k) ↦
            let p' = rw e at p in
            let w' = rw e at w in
            (
              _,
              rw (set, f) refl,
              (
                cs ++ (q ∷ ds),
                write_value-WellFormed rt hs q value m (cs ++ (q ∷ ds)) w',
                assoc_set-found rt m.heap (written rt hs q value m).heap (normal key) value cs q ds
                    xs p' l y w'.distinct (written_key rt hs q value m) (λ a n. ground (arith, n))
                    (ground arith),
                assoc_set-AllKeys rt (normal key) value xs ik ks,
              ),
            )
      ]

  pub get-Holds : Holds rt hs m xs → get rt hs key m ≡ some (assoc_get rt (normal key) xs)
  unfolding get
  get-Holds (cells, w, p, ks) =
      elim (lookup-LookedUp rt hs key m cells ik (Represents-KeysIn rt m.heap cells xs p ks) w) [
        | inl (f, l) ↦ rw (get, f, assoc_get-Lacks rt m.heap (normal key) cells xs p l) refl
        | inr (cs, q, ds, e, f, y, l, k) ↦
            let (v, a, b) = assoc_get-found rt m.heap (normal key) cs q ds xs (rw e at p) l y in
            rw (get, f, a, b) refl
      ]

  pub has-Holds : Holds rt hs m xs → has rt hs key m ≡ some (is_some (assoc_get rt (normal key) xs))
  unfolding has
  has-Holds (cells, w, p, ks) =
      elim (lookup-LookedUp rt hs key m cells ik (Represents-KeysIn rt m.heap cells xs p ks) w) [
        | inl (f, l) ↦ rw (has, f, assoc_get-Lacks rt m.heap (normal key) cells xs p l) refl
        | inr (cs, q, ds, e, f, y, l, k) ↦
            let (v, a, b) = assoc_get-found rt m.heap (normal key) cs q ds xs (rw e at p) l y in
            rw (has, f, a) refl
      ]

  pub get_or_insert-Holds :
      (value : Value)
      → Holds rt hs m xs
      → (m' : OrderedMap) × (get_or_insert rt hs key value m
          ≡ some (elim (assoc_get rt (normal key) xs) [ none ↦ some value | some v ↦ some v ], m'))
        × Holds rt hs m' (elim (assoc_get rt (normal key) xs) [
          | none ↦ assoc_set rt (normal key) value xs
          | some v ↦ xs
        ])
  unfolding get_or_insert
  get_or_insert-Holds value (cells, w, p, ks) =
      elim (lookup-LookedUp rt hs key m cells ik (Represents-KeysIn rt m.heap cells xs p ks) w) [
        | inl (f, l) ↦
            rw (get_or_insert, f, assoc_get-Lacks rt m.heap (normal key) cells xs p l)
              (_, refl, insert-Holds value cells w p ks l)
        | inr (cs, q, ds, e, f, y, l, k) ↦
            let (v, a, b) = assoc_get-found rt m.heap (normal key) cs q ds xs (rw e at p) l y in
            rw (get_or_insert, f, a, b) (m, refl, (cells, w, p, ks))
      ]

  pub remove-Holds :
      Holds rt hs m xs
      → (m' : OrderedMap) × (remove rt hs key m ≡ some (is_some (assoc_get rt (normal key) xs), m'))
        × Holds rt hs m' (assoc_remove rt (normal key) xs)
  unfolding remove
  remove-Holds (cells, w, p, ks) =
      elim (lookup-LookedUp rt hs key m cells ik (Represents-KeysIn rt m.heap cells xs p ks) w) [
        | inl (f, l) ↦
            rw
              (
                remove,
                f,
                assoc_get-Lacks rt m.heap (normal key) cells xs p l,
                assoc_remove-Lacks rt m.heap (normal key) cells xs p l,
              )
              (m, refl, (cells, w, p, ks))
        | inr (cs, q, ds, e, f, y, l, k) ↦
            let p' = rw e at p in
            let w' = rw e at w in
            let (v, a, b) = assoc_get-found rt m.heap (normal key) cs q ds xs p' l y in
            let h_prev = last_or none (bucket hash' m.heap (hash' (normal key)) cs) in
            let fields = remove_entry-Removed (hash' (normal key)) q h_prev m in
            rw (remove, f, a)
              (
                _,
                refl,
                (
                  cs ++ ds,
                  remove_entry-WellFormed hash' (hash' (normal key)) q m cs ds w' k,
                  Represents-frame m.heap (remove_entry (hash' (normal key)) q h_prev m).heap
                      (cs ++ ds) (assoc_remove rt (normal key) xs)
                      (λ a i.
                        fields.key_same a (left hash' (hash' (normal key)) q m cs ds w' k a i))
                      (λ a i.
                        fields.value_same a (left hash' (hash' (normal key)) q m cs ds w' k a i))
                      (assoc_remove-found rt m.heap (normal key) cs q ds xs p' l y),
                  assoc_remove-AllKeys rt (normal key) xs ks,
                ),
              )
      ]

pub clear-WellFormed : (hash : Value → ℕ) (m : OrderedMap) → WellFormed hash (clear m) []
unfolding clear
clear-WellFormed hash m = record {
  forth = refl;
  back = tt;
  final = refl;
  distinct = tt;
  below = λ a i. absurd (ground (arith, i));
  keyed = λ a i. absurd (ground (arith, i));
  buckets = λ h. refl;
  count = refl;
}

pub clear-Holds : (rt : Objects) (hs : Hashes) (m : OrderedMap) → Holds rt hs (clear m) []
clear-Holds rt hs m = ([], clear-WellFormed (hash_value hs) m, tt, tt)
