-- ===== src/Object/Get.antt =====
-- Reading a property goes to the first one with its name along the prototype chain.
use sobek.Base.{
  ℕ, zero, suc, ◌≤◌, Bool, true, false, List, Option, none, some, ◌≡◌, arith, length, Option-cases,
  inl, inr,
}
use sobek.Property.{Slot, plain, prop, get}
use sobek.Object.{
  Store, Got, absent, value, getter, nil_safe, read, get_str, has_property_str, has_and_get_str,
}
use sobek.Object.Chain.{Chain, last, next}
use sobek.Object.Written.{resolve}

abbrev pub read_or_absent : Option Slot → ℕ → Got
read_or_absent none receiver = absent
read_or_absent (some v) receiver = read v receiver

-- `getStr` reads the first property with the name along the chain, for the receiver, where the fuel
-- is as much as the chain's length.
pub get_str-resolve :
    {ps : List ℕ} (fuel : ℕ) (s : Store) (o name receiver : ℕ)
    → Chain s o ps
    → length ps ≤ fuel
    → get_str fuel s o name receiver ≡ some (read_or_absent (resolve s name ps) receiver)
unfolding get_str
get_str-resolve zero s o name receiver (last e) le = absurd (omega arith)
get_str-resolve zero s o name receiver (next e c) le = absurd (omega arith)
get_str-resolve (suc fuel) s o name receiver (last e) le = ground (arith, e)
get_str-resolve (suc fuel) s o name receiver (next {p} e c) le =
    ground (arith, e, get_str-resolve fuel s p name receiver c)

abbrev pub Fused : ℕ → Store → (o name receiver : ℕ) → Type 0
Fused fuel s o name receiver =
    (got : Got) × (has : Bool) × (has_and_get_str fuel s o name receiver ≡ some (got, has))
    × (get_str fuel s o name receiver ≡ some got)
    × (has_property_str fuel s o name ≡ some has)

own-Fused :
    (fuel : ℕ) (s : Store) (o name receiver : ℕ) (v : Slot)
    → (s o).values name ≡ some v
    → Fused (suc fuel) s o name receiver
unfolding has_and_get_str get_str has_property_str read get
own-Fused fuel s o name receiver (plain w) e =
    (value w, true, ground (arith, e), ground (arith, e), ground (arith, e))
own-Fused fuel s o name receiver (prop p) e = elim (Option-cases p.getter_func) [
  | inl n ↦ (
    value (nil_safe p.value),
    true,
    ground (arith, e, n),
    ground (arith, e, n),
    ground (arith, e),
  )
  | inr (f, q) ↦
      (getter f receiver, true, ground (arith, e, q), ground (arith, e, q), ground (arith, e))
]

-- `hasAndGetStr` in one walk says what `hasPropertyStr` and `getStr` say in two, where the fuel is as
-- much as the length of the prototype chain.
pub has_and_get_str-Fused :
    {ps : List ℕ} (fuel : ℕ) (s : Store) (o name receiver : ℕ)
    → Chain s o ps
    → length ps ≤ fuel
    → Fused fuel s o name receiver
unfolding has_and_get_str get_str has_property_str
has_and_get_str-Fused zero s o name receiver (last e) le = absurd (omega arith)
has_and_get_str-Fused zero s o name receiver (next e c) le = absurd (omega arith)
has_and_get_str-Fused (suc fuel) s o name receiver (last e) le =
    elim (Option-cases ((s o).values name)) [
      | inl n ↦ (absent, false, ground (arith, e, n), ground (arith, e, n), ground (arith, e, n))
      | inr (v, q) ↦ own-Fused fuel s o name receiver v q
    ]
has_and_get_str-Fused (suc fuel) s o name receiver (next {p} e c) le =
    elim (Option-cases ((s o).values name)) [
      | inl n ↦
          let (got, has, x, y, z) = has_and_get_str-Fused fuel s p name receiver c (omega arith) in
          (got, has, ground (arith, e, n, x), ground (arith, e, n, y), ground (arith, e, n, z))
      | inr (v, q) ↦ own-Fused fuel s o name receiver v q
    ]
