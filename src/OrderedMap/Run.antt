-- ===== src/OrderedMap/Run.antt =====
-- Sequences of calls on an ordered map, and their replies.
use sobek.Base.{Bool, List, [], ◌∷◌, Option, none, some, ◌≡◌, refl, is_some}
use sobek.Value.{Value, Objects, Hashes}
use sobek.Value.Hashing.{IsKey}
use sobek.OrderedMap.{OrderedMap, new_map, set, get, get_or_insert, has, remove, clear, normal}
use sobek.OrderedMap.Assoc.{Assoc, assoc_get, assoc_set, assoc_remove}
use sobek.OrderedMap.Contents.{
  Holds, new_map-Holds, set-Holds, get-Holds, get_or_insert-Holds, has-Holds, remove-Holds,
  clear-Holds,
}

pub data MapCall : Type 0 where
  call_set : (key value : Value) → MapCall
  call_get : (key : Value) → MapCall
  call_get_or_insert : (key value : Value) → MapCall
  call_has : (key : Value) → MapCall
  call_remove : (key : Value) → MapCall
  call_clear : MapCall

-- What a call gives back; a missing value is Go's nil.
pub data Reply : Type 0 where
  done : Reply
  replied : Option Value → Reply
  answered : Bool → Reply

module _ (rt : Objects) where
  module _ (hs : Hashes) where
    unfoldable pub step : MapCall → OrderedMap → Option (Reply × OrderedMap)
    step (call_set key value) m = elim (set rt hs key value m) [
      | none ↦ none
      | some m' ↦ some (done, m')
    ]
    step (call_get key) m = elim (get rt hs key m) [ none ↦ none | some v ↦ some (replied v, m) ]
    step (call_get_or_insert key value) m = elim (get_or_insert rt hs key value m) [
      | none ↦ none
      | some (v, m') ↦ some (replied v, m')
    ]
    step (call_has key) m = elim (has rt hs key m) [ none ↦ none | some b ↦ some (answered b, m) ]
    step (call_remove key) m = elim (remove rt hs key m) [
      | none ↦ none
      | some (b, m') ↦ some (answered b, m')
    ]
    step call_clear m = some (done, clear m)

    unfoldable pub run : List MapCall → OrderedMap → Option (List Reply × OrderedMap)
    unfolding step
    run [] m = some ([], m)
    run (call ∷ calls) m = elim (step call m) [
      | none ↦ none
      | some (reply, m') ↦ elim (run calls m') [
        | none ↦ none
        | some (replies, m'') ↦ some (reply ∷ replies, m'')
      ]
    ]

  -- The same calls on the association list.
  abbrev pub assoc_step : MapCall → Assoc → Reply × Assoc
  assoc_step (call_set key value) xs = (done, assoc_set rt (normal key) value xs)
  assoc_step (call_get key) xs = (replied (assoc_get rt (normal key) xs), xs)
  assoc_step (call_get_or_insert key value) xs =
      let found = assoc_get rt (normal key) xs in
      (
        replied (elim found [ none ↦ some value | some v ↦ some v ]),
        elim found [ none ↦ assoc_set rt (normal key) value xs | some v ↦ xs ],
      )
  assoc_step (call_has key) xs = (answered (is_some (assoc_get rt (normal key) xs)), xs)
  assoc_step (call_remove key) xs =
      (answered (is_some (assoc_get rt (normal key) xs)), assoc_remove rt (normal key) xs)
  assoc_step call_clear xs = (done, [])

  abbrev pub assoc_run : List MapCall → Assoc → List Reply × Assoc
  assoc_run [] xs = ([], xs)
  assoc_run (call ∷ calls) xs =
      let (reply, xs') = assoc_step call xs in
      let (replies, xs'') = assoc_run calls xs' in (reply ∷ replies, xs'')

-- The key of a call is one on which the hash and `SameAs` agree.
abbrev pub KeyedCall : Objects → MapCall → Type 0
KeyedCall rt (call_set key value) = IsKey rt (normal key)
KeyedCall rt (call_get key) = IsKey rt (normal key)
KeyedCall rt (call_get_or_insert key value) = IsKey rt (normal key)
KeyedCall rt (call_has key) = IsKey rt (normal key)
KeyedCall rt (call_remove key) = IsKey rt (normal key)
KeyedCall rt call_clear = Unit

abbrev pub KeyedCalls : Objects → List MapCall → Type 0
KeyedCalls rt [] = Unit
KeyedCalls rt (call ∷ calls) = KeyedCall rt call × KeyedCalls rt calls

module _ (rt : Objects) (hs : Hashes) where
  -- With keys other than a float64 that equals an integer, a NaN other than the one of `math.NaN`, and
  -- an object that is the same as another one: a call on a map that is well formed and stands for an
  -- association list comes to an end, gives the reply that the call on the list gives, and leaves a
  -- well-formed map that stands for the list afterwards. A float64 zero as key counts as the integer 0.
  pub step-Holds :
      (call : MapCall) (m : OrderedMap) (xs : Assoc)
      → KeyedCall rt call
      → Holds rt hs m xs
      → (m' : OrderedMap) × (step rt hs call m ≡ some ((assoc_step rt call xs).0, m'))
        × Holds rt hs m' (assoc_step rt call xs).1
  unfolding step
  step-Holds (call_set key value) m xs k w =
      let (m', e, w') = set-Holds rt hs key k m xs value w in (m', rw (step, e) refl, w')
  step-Holds (call_get key) m xs k w = (m, rw (step, get-Holds rt hs key k m xs w) refl, w)
  step-Holds (call_get_or_insert key value) m xs k w =
      let (m', e, w') = get_or_insert-Holds rt hs key k m xs value w in (m', rw (step, e) refl, w')
  step-Holds (call_has key) m xs k w = (m, rw (step, has-Holds rt hs key k m xs w) refl, w)
  step-Holds (call_remove key) m xs k w =
      let (m', e, w') = remove-Holds rt hs key k m xs w in (m', rw (step, e) refl, w')
  step-Holds call_clear m xs k w = (clear m, refl, clear-Holds rt hs m)

  run-Holds :
      (calls : List MapCall) (m : OrderedMap) (xs : Assoc)
      → KeyedCalls rt calls
      → Holds rt hs m xs
      → (m' : OrderedMap) × (run rt hs calls m ≡ some ((assoc_run rt calls xs).0, m'))
        × Holds rt hs m' (assoc_run rt calls xs).1
  unfolding run
  run-Holds [] m xs k w = (m, refl, w)
  run-Holds (call ∷ calls) m xs k w =
      let (m', e, w') = step-Holds call m xs k.0 w in
      let (m'', e', w'') = run-Holds calls m' (assoc_step rt call xs).1 k.1 w' in
      (m'', rw (run, e, e') refl, w'')

  -- With keys other than a float64 that equals an integer, a NaN other than the one of `math.NaN`, and
  -- an object that is the same as another one: any sequence of calls on a new map comes to an end and
  -- gives the replies that the same calls give on an association list that is empty at first. A
  -- float64 zero as key counts as the integer 0.
  pub run-assoc_run :
      (calls : List MapCall)
      → KeyedCalls rt calls
      → (m : OrderedMap) × (run rt hs calls new_map ≡ some ((assoc_run rt calls []).0, m))
  run-assoc_run calls k =
      let (m, e, w) = run-Holds calls new_map [] k (new_map-Holds rt hs) in (m, e)
