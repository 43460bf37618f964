-- ===== src/Base/Members.antt =====
-- Membership in a list of numbers, and lists without repetition.
use Prim.Native.Nat.{ℕ}
use mathlib.Core.Path.{◌≡◌, refl}
use mathlib.Core.Bool.{Bool, false, ◌||◌}
use mathlib.Core.List.{List, [], ◌∷◌, ◌++◌}
use native.Mathlib.Omega.{arith}
use sobek.Base.Tests.{◌==◌}

abbrev pub member : ℕ → List ℕ → Bool
member k [] = false
member k (x ∷ xs) = x == k || member k xs

abbrev pub Distinct : List ℕ → Type 0
Distinct [] = Unit
Distinct (n ∷ ns) = (member n ns ≡ false) × Distinct ns

pub member-append : (n k : ℕ) (ns : List ℕ) → member n (ns ++ (k ∷ [])) ≡ (member n ns || (k == n))
member-append n k [] = ground arith
member-append n k (m ∷ ns) = ground (arith, member-append n k ns)

pub Distinct-append :
    (k : ℕ) (ns : List ℕ) → member k ns ≡ false → Distinct ns → Distinct (ns ++ (k ∷ []))
Distinct-append k [] out d = (refl, tt)
Distinct-append k (m ∷ ns) out d =
    (ground (arith, member-append m k ns, d.0, out), Distinct-append k ns (ground (arith, out)) d.1)
