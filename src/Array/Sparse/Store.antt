-- ===== src/Array/Sparse/Store.antt =====
-- Storing at an index of a sparse array: the slots afterwards, in whichever representation.
use sobek.Base.{
  ℕ, ◌<◌, false, none, some, ◌≡◌, inl, inr, arith, ◌==◌, if◌then◌else◌, length, ◌∙◌, Bool-cases,
  length-set,
}
use sobek.Base.Int.{ℤ}
use sobek.Property.{Slot}
use sobek.Array.Items.{item, Sorted, lookup, find_idx, insert_at}
use sobek.Array.Items.Rank.{find_idx-rank}
use sobek.Array.Items.Insert.{insert_at-rank, lookup-place, place-Sorted}
use sobek.Array.Items.Bounds.{All-place, count_props-place}
use sobek.Array.Items.Count.{count_props}
use sobek.Array.Slots.{slot_at, slot_at-set, count_slots-set}
use sobek.Array.State.{SparseArray, is_prop, Covers-mono}
use sobek.Array.Sparse.{to_dense, is_crowded, store_new, write_dense}
use sobek.Array.Sparse.Cut.{WellFormed}
use sobek.Array.Sparse.Switch.{
  get_idx-lookup, to_dense-slot, to_dense-count, length-to_dense, last-lt,
}
use sobek.Array.Own.{own, IsValid, ValidDense}
use sobek.Array.Dense

module _ (idx : ℕ) (v : Slot) (a : SparseArray) (w : WellFormed a) where
  pub lookup-insert :
      (j : ℕ)
      → lookup idx a.items ≡ none
      → lookup j (insert_at a.items (find_idx a.items idx) (item idx v))
        ≡ (if idx == j then some v else lookup j a.items)
  lookup-insert j n =
      rw (find_idx-rank a.items idx w.sorted, insert_at-rank) (lookup-place idx j v a.items n)

  pub insert-Sorted :
      lookup idx a.items ≡ none → Sorted (insert_at a.items (find_idx a.items idx) (item idx v))
  insert-Sorted n =
      rw (find_idx-rank a.items idx w.sorted, insert_at-rank)
        (place-Sorted idx v a.items n w.sorted)

  pub write_dense-slot :
      (j : ℕ)
      → slot_at (write_dense idx v (to_dense idx a)).values j
        ≡ (if idx == j then some v else lookup j a.items)
  write_dense-slot j =
      slot_at-set (to_dense idx a).values idx j (some v) (rw (length-to_dense idx a) (ground arith))
      ∙ rw (to_dense-slot idx j a w.sorted)

  -- A new slot, with no item in its place.
  pub store_new-own :
      (j : ℕ)
      → lookup idx a.items ≡ none
      → own j (store_new (find_idx a.items idx) idx v a)
        ≡ (if idx == j then some v else lookup j a.items)
  unfolding store_new Dense.get_idx
  store_new-own j n = elim (Bool-cases (is_crowded idx a.items)) [
    | inl y ↦ rw y (write_dense-slot j)
    | inr no' ↦ rw no' (
        get_idx-lookup j
          (record a { items = insert_at a.items (find_idx a.items idx) (item idx v) })
          (insert-Sorted n)
        ∙ lookup-insert j n)
  ]

  pub insert-WellFormed :
      lookup idx a.items ≡ none
      → idx < a.length
      → is_prop v ≡ false
      → WellFormed (record a { items = insert_at a.items (find_idx a.items idx) (item idx v) })
  insert-WellFormed n lt p = record {
    sorted = insert-Sorted n;
    within =
        rw (find_idx-rank a.items idx w.sorted, insert_at-rank)
          (All-place (λ i u. i < a.length) idx v a.items lt w.within);
    covers =
        rw (find_idx-rank a.items idx w.sorted, insert_at-rank, count_props-place, p)
          (Covers-mono a.prop_value_count _ _ (omega arith) w.covers);
  }

  dense-Valid :
      lookup idx a.items ≡ none
      → idx < a.length
      → is_prop v ≡ false
      → (n : ℤ) → ValidDense (record (write_dense idx v (to_dense idx a)) { obj_count = n })
  unfolding to_dense
  dense-Valid n lt p k =
      let vs = (to_dense idx a).values in
      let len = length-set vs idx (some v) in
      let top = length-to_dense idx a in
      let last = last-lt a.length a.items (omega arith) w.within in
      let inside : idx < length vs = ground (arith, top) in
      let same = to_dense-slot idx idx a w.sorted ∙ n in
      let change = count_slots-set vs idx (some v) inside in
      let total = to_dense-count idx a w.sorted in
      record {
        within = ground (arith, len, top, last);
        room = ground (arith, len, top);
        covers =
            Covers-mono a.prop_value_count _ (count_props a.items)
              (ground (arith, same, change, total)) w.covers;
      }

  pub store_new-IsValid :
      lookup idx a.items ≡ none
      → idx < a.length
      → is_prop v ≡ false
      → IsValid (store_new (find_idx a.items idx) idx v a)
  unfolding store_new
  store_new-IsValid n lt p = elim (Bool-cases (is_crowded idx a.items)) [
    | inl y ↦ rw y (dense-Valid n lt p _)
    | inr no' ↦ rw no' (insert-WellFormed n lt p)
  ]
