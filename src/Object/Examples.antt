-- ===== src/Object/Examples.antt =====
-- Runs on a small store, and the theorems about it.
use sobek.Base.{
  ℕ, zero, suc, Bool, true, false, [], ◌∷◌, Option, none, some, ◌≡◌, refl, arith, ◌==◌,
  if◌then◌else◌,
}
use sobek.Base.Int.{pos}
use sobek.Value.{Value, int, object, Objects}
use sobek.Property.{plain}
use sobek.Property.Spec.{CleanSlot}
use sobek.Array.State.{Result, returned, state}
use sobek.Object.{BaseObject, Store, add_str, value, get_str}
use sobek.Object.Chain.{Chain, last, next, set_proto, Grounded, set_proto-Grounded}
use sobek.Object.Get.{read_or_absent, get_str-resolve}
use sobek.Object.Assign.{set_str}
use sobek.Object.Written.{resolve, verdict, Carries, IsCleanStore}
use sobek.Object.Set.{set_str-Carries}
use sobek.Object.Names.{IsNamed}
use sobek.Object.ReadBack.{get_str-set_str}

abbrev objects : Objects
objects = record { equal = λ a b. false; callable = λ f. f == 4 }

abbrev seven : Value
seven = int (pos 7)

abbrev empty_object : Option ℕ → BaseObject
empty_object p = record {
  prototype = p;
  extensible = true;
  values = λ n. none;
  prop_names = [];
  sym_values = λ n. none;
}

-- Object 0 has a property, and is the prototype of 1, which is that of all others.
abbrev base : BaseObject
base = record (empty_object none) {
  values = λ n. if n == 5 then some (plain seven) else none;
  prop_names = 5 ∷ [];
}

abbrev three : Store
three zero = base
three (suc zero) = empty_object (some 0)
three (suc (suc o)) = empty_object (some 1)

three-IsCleanStore : IsCleanStore three
three-IsCleanStore zero n = by_test (n == 5)
  where
    by_test : (b : Bool) → CleanSlot (if b then some (plain seven) else none)
    by_test true = tt
    by_test false = tt
three-IsCleanStore (suc zero) n = tt
three-IsCleanStore (suc (suc o)) n = tt

three-IsNamed : IsNamed three
three-IsNamed zero = record { listed = λ n. ground arith; distinct = ground arith }
three-IsNamed (suc zero) = record { listed = λ n. refl; distinct = tt }
three-IsNamed (suc (suc o)) = record { listed = λ n. refl; distinct = tt }

three-Grounded : Grounded three
three-Grounded zero = (0 ∷ [], last refl)
three-Grounded (suc zero) = (1 ∷ 0 ∷ [], next refl (last refl))
three-Grounded (suc (suc o)) = (_, next refl (next refl (last refl)))

two-Chain : Chain three 2 (2 ∷ 1 ∷ 0 ∷ [])
two-Chain = next refl (next refl (last refl))

get_str-resolve_example :
    get_str 3 three 2 5 2 ≡ some (read_or_absent (resolve three 5 (2 ∷ 1 ∷ 0 ∷ [])) 2)
get_str-resolve_example = get_str-resolve 3 three 2 5 2 two-Chain (omega arith)

-- Linking object 0 to 2 would close a cycle.
close_cycle : set_proto 3 9 0 (some 2) false three ≡ some (returned false three)
unfolding set_proto
close_cycle = refl

set_proto-Grounded_example :
    (r : Result Store) × (set_proto 4 9 2 (some 0) false three ≡ some r) × Grounded (state r)
unfolding three-Grounded
set_proto-Grounded_example =
    set_proto-Grounded 4 9 2 (some 0) false three three-Grounded
      (λ p e. let q : 0 ≡ p = ground (arith, e) in rw (← q) (omega arith))

set_str-Carries_example :
    Carries three 5
      (int (pos 8))
      (object 2)
      true
      (verdict three 5 (2 ∷ 1 ∷ 0 ∷ []) (object 2))
      (set_str objects 3 three 2 5 (int (pos 8)) (object 2) true)
set_str-Carries_example =
    set_str-Carries objects 3 three 2 5 (int (pos 8)) (object 2) true three-IsCleanStore two-Chain
      (omega arith)

assign_two :
    set_str objects 3 three 2 5 (int (pos 8)) (object 2) true
    ≡ some (returned true (add_str 2 5 (plain (int (pos 8))) three))
unfolding set_str
assign_two = refl

get_str-set_str_example :
    get_str 1 (add_str 2 5 (plain (int (pos 8))) three) 2 5 2 ≡ some (value (int (pos 8)))
get_str-set_str_example =
    get_str-set_str objects 3 0 three (add_str 2 5 (plain (int (pos 8))) three) 2 2 5 2
      (int (pos 8)) true three-IsCleanStore two-Chain (omega arith) assign_two
