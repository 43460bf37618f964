-- ===== src/OrderedMap/Examples.antt =====
-- A map of two entries that share a chain, with -0 and 0 as one key.
use sobek.Base.{true, false, List, [], ◌∷◌, none, some, ◌≡◌, refl, arith, ℕ, ◌+◌}
use sobek.Base.Int.{pos}
use sobek.Value.{Value, int, float, string, ascii_string, Objects, Hashes, hash_value, is_zero}
use sobek.OrderedMap.{clear, OrderedMap, OrderedMapIter, new_map, insert, next, moved}
use sobek.OrderedMap.Find.{WellFormed}
use sobek.OrderedMap.Insert.{insert-WellFormed}
use sobek.OrderedMap.Assoc.{Assoc}
use sobek.OrderedMap.Contents.{Holds, new_map-WellFormed}
use sobek.OrderedMap.Run.{
  KeyedCalls, MapCall, call_set, call_get, call_remove, call_has, call_get_or_insert, step, run,
  assoc_step, assoc_run, step-Holds, run-assoc_run,
}
use sobek.OrderedMap.Iterator.{Ready, GoesOn, at_entry, next-Ready}
use sobek.OrderedMap.Cleared.{clear-Ready}

abbrev objects : Objects
objects = record { equal = λ a b. false; callable = λ a. false }

-- Every string has the hash of 0.
abbrev hashes : Hashes
hashes = record {
  hash_undef = 11;
  hash_null = 12;
  hash_true = 13;
  hash_false = 14;
  string_sum = λ k s. 0;
  big_int_sum = λ i. 15;
  symbol_address = λ a. a;
  object_address = λ o. o;
}

abbrev hash : Value → ℕ
hash = hash_value hashes

abbrev name : Value
name = string ascii_string (97 ∷ [])

abbrev minus_zero : Value
minus_zero = float 9223372036854775808

abbrev calls : List MapCall
calls =
    call_set minus_zero (int (pos 5))
    ∷ call_set name (int (pos 6))
    ∷ call_get (int (pos 0))
    ∷ call_remove minus_zero
    ∷ call_get_or_insert (int (pos 0)) (int (pos 7))
    ∷ call_has name
    ∷ []

keyed_calls : KeyedCalls objects calls
unfolding is_zero
keyed_calls = (tt, (tt, (tt, (tt, (tt, (tt, tt))))))

run-assoc_run_example :
    (m : OrderedMap) × (run objects hashes calls new_map ≡ some ((assoc_run objects calls []).0, m))
run-assoc_run_example = run-assoc_run objects hashes calls keyed_calls

abbrev one_entry : OrderedMap
one_entry = insert minus_zero (int (pos 5)) 0 none new_map

one_entry-WellFormed : WellFormed hash one_entry (0 ∷ [])
unfolding insert hash_value is_zero
one_entry-WellFormed =
    insert-WellFormed hash minus_zero (int (pos 5)) new_map [] (new_map-WellFormed hash)

abbrev two_entries : OrderedMap
two_entries = insert name (int (pos 6)) 0 (some 0) one_entry

two_entries-WellFormed : WellFormed hash two_entries (0 ∷ 1 ∷ [])
unfolding insert hash_value is_zero
two_entries-WellFormed =
    insert-WellFormed hash name (int (pos 6)) one_entry (0 ∷ []) one_entry-WellFormed

abbrev two_pairs : Assoc
two_pairs = (int (pos 0), int (pos 5)) ∷ (name, int (pos 6)) ∷ []

two_entries-Holds : Holds objects hashes two_entries two_pairs
unfolding insert hash_value is_zero
two_entries-Holds =
    (0 ∷ 1 ∷ [], two_entries-WellFormed, (refl, refl, (refl, refl, tt)), (tt, (tt, tt)))

step-Holds_example :
    (m : OrderedMap) × (step objects hashes (call_remove minus_zero) two_entries
      ≡ some ((assoc_step objects (call_remove minus_zero) two_pairs).0, m))
    × Holds objects hashes m (assoc_step objects (call_remove minus_zero) two_pairs).1
step-Holds_example =
    step-Holds objects hashes (call_remove minus_zero) two_entries two_pairs keyed_calls.0
      two_entries-Holds

-- An iterator that has given the first entry.
abbrev on_first : OrderedMapIter
on_first = record { is_open = true; cur = some 0 }

on_first-Ready : Ready two_entries (0 ∷ []) (1 ∷ []) on_first
unfolding insert hash_value is_zero
on_first-Ready = record { opened = refl; back = at_entry (omega arith) refl }

next-Ready_example :
    ((n : ℕ) × ((more : ℕ) → next (n + more) two_entries on_first ≡ some (some 1, moved (some 1))))
    × GoesOn two_entries (0 ∷ []) (1 ∷ [])
next-Ready_example =
    next-Ready hash two_entries (0 ∷ []) (1 ∷ []) on_first two_entries-WellFormed on_first-Ready

clear-Ready_example :
    WellFormed hash (clear two_entries) [] × Ready (clear two_entries) [] [] on_first
clear-Ready_example =
    clear-Ready hash two_entries (0 ∷ []) (1 ∷ []) on_first two_entries-WellFormed on_first-Ready
