-- ===== src/OrderedMap.antt =====
-- `orderedMap` (map.go), which Map, Set and the symbol properties use: a hash table whose entries also
-- form a doubly linked list in the order of insertion. Entries lie in a heap, by their number, and
-- are not reclaimed; a nil key marks an entry that has been removed. The hash of a key (hash/maphash)
-- is an argument. `lookup` takes as fuel the number of entries, which is enough.
pub mod Links
pub mod Buckets
pub mod Find
pub mod Insert
pub mod Unlink
pub mod Remove
pub mod Assoc
pub mod Contents
pub mod Run
pub mod Copy
pub mod Cleared
pub mod Iterator
pub mod Meanwhile
mod Examples
use sobek.Base.{
  ℕ, zero, suc, ◌-◌, Bool, true, false, List, [], ◌∷◌, Option, none, some, ◌==◌, if◌then◌else◌,
  is_some,
}
use sobek.Base.Int.{pos}
use sobek.Value.{Value, int, float, Objects, same_as, is_zero, Hashes, hash_value}

pub record MapEntry : Type 0 where
  pub key : Option Value
  pub value : Option Value
  pub iter_prev : Option ℕ
  pub iter_next : Option ℕ
  pub h_next : Option ℕ

abbrev pub Heap : Type 0
Heap = ℕ → MapEntry

-- `fresh` is the number of the next entry.
pub record OrderedMap : Type 0 where
  pub heap : Heap
  pub fresh : ℕ
  pub hash_table : ℕ → Option ℕ
  pub iter_first : Option ℕ
  pub iter_last : Option ℕ
  pub size : ℕ

abbrev pub write_entry : ℕ → MapEntry → Heap → Heap
write_entry p e h a = if a == p then e else h a

abbrev pub set_prev : ℕ → Option ℕ → Heap → Heap
set_prev p q h = write_entry p (record (h p) { iter_prev = q }) h

abbrev pub set_next : ℕ → Option ℕ → Heap → Heap
set_next p q h = write_entry p (record (h p) { iter_next = q }) h

abbrev pub set_h_next : ℕ → Option ℕ → Heap → Heap
set_h_next p q h = write_entry p (record (h p) { h_next = q }) h

abbrev pub set_bucket : ℕ → Option ℕ → (ℕ → Option ℕ) → ℕ → Option ℕ
set_bucket h p table k = if k == h then p else table k

abbrev pub new_map : OrderedMap
new_map = record {
  heap =
      λ p. record { key = none; value = none; iter_prev = none; iter_next = none; h_next = none };
  fresh = 0;
  hash_table = λ h. none;
  iter_first = none;
  iter_last = none;
  size = 0;
}

-- A zero becomes 0: the comparison with -0 is one of float64s.
abbrev pub normal : Value → Value
normal (float bits) = if is_zero bits then int (pos 0) else float bits
normal v = v

-- `entry.key.SameAs(key)`; a removed entry is in no chain.
abbrev pub matches : Objects → MapEntry → Value → Bool
matches rt e key = elim e.key [ none ↦ false | some k ↦ same_as rt k key ]

-- The end of the new entry's making: it is the last of the list.
unfoldable pub link_last : ℕ → OrderedMap → OrderedMap
link_last n m = elim m.iter_last [
  | some l ↦ record m {
    heap = set_next l (some n) (set_prev n (some l) m.heap);
    iter_last = some n;
    size = suc m.size;
  }
  | none ↦ record m { iter_first = some n; iter_last = some n; size = suc m.size }
]

unfoldable pub link_hash : (h : ℕ) → Option ℕ → ℕ → OrderedMap → OrderedMap
link_hash h none n m = record m { hash_table = set_bucket h (some n) m.hash_table }
link_hash h (some q) n m = record m { heap = set_h_next q (some n) m.heap }

unfoldable pub new_entry : (key value : Value) → OrderedMap → OrderedMap
new_entry key value m = record m {
  heap =
      write_entry m.fresh
        (record {
          key = some (normal key);
          value = some value;
          iter_prev = none;
          iter_next = none;
          h_next = none;
        })
        m.heap;
  fresh = suc m.fresh;
}

unfoldable pub insert : (key value : Value) → (h : ℕ) → Option ℕ → OrderedMap → OrderedMap
unfolding new_entry link_hash link_last
insert key value h h_prev m = link_last m.fresh (link_hash h h_prev m.fresh (new_entry key value m))

module _ (rt : Objects) (hs : Hashes) where
  -- The loop of `lookup`: the entry found, and the one before it.
  unfoldable pub find : ℕ → Heap → Value → (entry h_prev : Option ℕ) → Option (Option ℕ × Option ℕ)
  find fuel heap key none h_prev = some (none, h_prev)
  find zero heap key (some p) h_prev = none
  find (suc fuel) heap key (some p) h_prev =
      let rest = find fuel heap key (heap p).h_next (some p) in
      if matches rt (heap p) key then some (some p, h_prev) else rest

  -- The hash that `lookup` returns as well.
  abbrev pub hash_of : Value → ℕ
  hash_of key = hash_value hs (normal key)

  unfoldable pub lookup : Value → OrderedMap → Option (Option ℕ × Option ℕ)
  unfolding find
  lookup key m = find m.size m.heap (normal key) (m.hash_table (hash_of key)) none

  abbrev pub write_value : ℕ → Value → OrderedMap → OrderedMap
  write_value p value m = record m {
    heap = write_entry p (record (m.heap p) { value = some value }) m.heap;
  }

  -- A result is missing where the fuel runs out.
  unfoldable pub set : (key value : Value) → OrderedMap → Option OrderedMap
  unfolding lookup insert
  set key value m = elim (lookup key m) [
    | none ↦ none
    | some (some p, h_prev) ↦ some (write_value p value m)
    | some (none, h_prev) ↦ some (insert key value (hash_of key) h_prev m)
  ]

  unfoldable pub get : Value → OrderedMap → Option (Option Value)
  unfolding lookup
  get key m = elim (lookup key m) [
    | none ↦ none
    | some (some p, h_prev) ↦ some (m.heap p).value
    | some (none, h_prev) ↦ some none
  ]

  unfoldable pub get_or_insert :
      (key value : Value) → OrderedMap → Option (Option Value × OrderedMap)
  unfolding lookup insert
  get_or_insert key value m = elim (lookup key m) [
    | none ↦ none
    | some (some p, h_prev) ↦ some ((m.heap p).value, m)
    | some (none, h_prev) ↦ some (some value, insert key value (hash_of key) h_prev m)
  ]

  -- The loop of `copyTo`, on as many entries as there are; none of them has a nil key or value.
  unfoldable pub copy_loop : ℕ → Heap → Option ℕ → OrderedMap → Option OrderedMap
  unfolding set
  copy_loop fuel heap none dest = some dest
  copy_loop zero heap (some p) dest = none
  copy_loop (suc fuel) heap (some p) dest = elim (heap p).key [
    | none ↦ none
    | some k ↦ elim (heap p).value [
      | none ↦ none
      | some v ↦ elim (set k v dest) [
        | none ↦ none
        | some dest' ↦ copy_loop fuel heap (heap p).iter_next dest'
      ]
    ]
  ]

  unfoldable pub copy_to : OrderedMap → OrderedMap → Option OrderedMap
  unfolding copy_loop
  copy_to m dest = copy_loop m.size m.heap m.iter_first dest

  unfoldable pub has : Value → OrderedMap → Option Bool
  unfolding lookup
  has key m = elim (lookup key m) [ none ↦ none | some (entry, h_prev) ↦ some (is_some entry) ]

-- `entry.key = nil` and `entry.value = nil`
abbrev pub clear_entry : ℕ → Heap → Heap
clear_entry p h = write_entry p (record (h p) { key = none; value = none }) h

-- The removal from the doubly linked list.
unfoldable pub unlink_iter : ℕ → OrderedMap → OrderedMap
unlink_iter p m =
    let prev = (m.heap p).iter_prev in
    let next = (m.heap p).iter_next in
    record m {
      heap =
          let h : Heap = elim prev [ none ↦ m.heap | some l ↦ set_next l next m.heap ] in
          elim next [ none ↦ h | some r ↦ set_prev r prev h ];
      iter_first = elim prev [ none ↦ next | some l ↦ m.iter_first ];
      iter_last = elim next [ none ↦ prev | some r ↦ m.iter_last ];
    }

-- The removal from the hash table. Deleting a bucket leaves it with no entry.
unfoldable pub unlink_hash : (h p : ℕ) → Option ℕ → OrderedMap → OrderedMap
unlink_hash h p none m = record m { hash_table = set_bucket h (m.heap p).h_next m.hash_table }
unlink_hash h p (some q) m = record m { heap = set_h_next q (m.heap p).h_next m.heap }

unfoldable pub remove_entry : (h p : ℕ) → Option ℕ → OrderedMap → OrderedMap
unfolding unlink_iter unlink_hash
remove_entry h p h_prev m =
    let m' = unlink_hash h p h_prev (unlink_iter p (record m { heap = clear_entry p m.heap })) in
    record m' { size = m'.size - 1 }

unfoldable pub remove : Objects → Hashes → Value → OrderedMap → Option (Bool × OrderedMap)
unfolding lookup remove_entry
remove rt hs key m = elim (lookup rt hs key m) [
  | none ↦ none
  | some (some p, h_prev) ↦ some (true, remove_entry (hash_value hs (normal key)) p h_prev m)
  | some (none, h_prev) ↦ some (false, m)
]

-- The loop of `clear`, on as many entries as there are.
unfoldable pub clear_loop : ℕ → Option ℕ → Heap → Heap
clear_loop fuel none h = h
clear_loop zero (some p) h = h
clear_loop (suc fuel) (some p) h =
    let h' = clear_entry p h in
    let h'' : Heap = elim (h' p).iter_prev [ none ↦ h' | some l ↦ set_next l none h' ] in
    clear_loop fuel (h'' p).iter_next h''

unfoldable pub clear : OrderedMap → OrderedMap
unfolding clear_loop
clear m = record m {
  heap = clear_loop m.size m.iter_first m.heap;
  hash_table = λ h. none;
  iter_first = none;
  iter_last = none;
  size = 0;
}

-- `orderedMapIter`; a closed one has no map.
pub record OrderedMapIter : Type 0 where
  pub is_open : Bool
  pub cur : Option ℕ

abbrev pub new_iter : OrderedMapIter
new_iter = record { is_open = true; cur = none }

-- Back to the latest entry that has not been removed.
unfoldable pub track_back : ℕ → Heap → Option ℕ → Option (Option ℕ)
track_back fuel h none = some none
track_back zero h (some p) = none
track_back (suc fuel) h (some p) =
    let rest = track_back fuel h (h p).iter_prev in
    if is_some (h p).key then some (some p) else rest

abbrev pub moved : Option ℕ → OrderedMapIter
moved none = record { is_open = false; cur = none }
moved (some p) = record { is_open = true; cur = some p }

-- `next`: the entry, and the iterator on it, closed where there is none.
unfoldable pub next : ℕ → OrderedMap → OrderedMapIter → Option (Option ℕ × OrderedMapIter)
unfolding track_back
next fuel m iter =
    if iter.is_open
    then elim (track_back fuel m.heap iter.cur) [
      | none ↦ none
      | some none ↦ some (m.iter_first, moved m.iter_first)
      | some (some p) ↦ some ((m.heap p).iter_next, moved (m.heap p).iter_next)
    ]
    else some (none, iter)
