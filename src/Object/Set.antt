-- ===== src/Object/Set.antt =====
-- `setStr` carries out what ECMAScript's OrdinarySet decides.
use sobek.Base.{
  ℕ, zero, suc, ◌≤◌, Bool, true, List, [], ◌∷◌, Option, none, some, ◌≡◌, inl, inr, refl, arith,
  length, Bool-cases, Option-cases, ◌∙◌, ap,
}
use sobek.Value.{Value, object, Objects}
use sobek.Property.{Slot, plain, prop}
use sobek.Property.Spec.{reported}
use sobek.Array.State.{Result}
use sobek.Object.{read, Store, is_object, write_str, add_str, put, define_own_property_str}
use sobek.Object.Chain.{Chain, last, next}
use sobek.Object.Assign.{
  handle, unless_handled, add_own_str, set_own_str, set_foreign_str, value_only, all_attributes,
  set_on_receiver_str, set_str,
}
use sobek.Object.Written.{
  Verdict, writes, refused, calls_setter, resolve, on_receiver, receiver_verdict, verdict, Carries,
  IsCleanStore,
}
use sobek.Object.Defined.{
  Carries-writes, Carries-refused, define_value, define_new, define_fixed, write_str-Written,
  add_str-Written,
}
use sobek.Object.Slots.{ForeignCarries, own_slot-Carries, foreign_slot-Carries, add_own-Carries}

is_object-eq : (receiver : Value) (p : ℕ) → is_object receiver p ≡ true → receiver ≡ object p
is_object-eq receiver p h = ground arith

-- A verdict that is carried out has a result.
Carries-some :
    (s : Store) (name : ℕ) (val receiver : Value) (throw : Bool) (v : Verdict)
    (f : Option (Result Store))
    → Carries s name val receiver throw v f
    → (r : Result Store) × (f ≡ some r)
Carries-some s name val receiver throw refused f c = (_, c)
Carries-some s name val receiver throw (calls_setter g) f c = (_, c)
Carries-some s name val receiver throw writes f (o, q, s', e, w) = (_, e)

abbrev Walks : Store → ℕ → Value → Bool → ℕ → ℕ → List ℕ → Type 0
Walks s name val throw fuel o ps =
    Carries s name val (object o) throw (verdict s name ps (object o))
      (set_own_str fuel s o name val throw)
    × ((receiver : Value)
        → ForeignCarries s name val receiver throw (verdict s name ps receiver)
            (set_foreign_str fuel s o name val receiver throw))

module _ (s : Store) (name : ℕ) (val : Value) (throw : Bool) (clean : IsCleanStore s) where
  found-Walks :
      (fuel o : ℕ) (ps : List ℕ) (v : Slot)
      → (s o).values name ≡ some v
      → Walks s name val throw (suc fuel) o (o ∷ ps)
  found-Walks fuel o ps v e =
      let c = rw e at (clean o name) in
      let r : resolve s name (o ∷ ps) ≡ some v = ground (arith, e) in
      (
        rw r (own_slot-Carries s o name val throw fuel v e c),
        λ receiver. rw r (foreign_slot-Carries s o name val throw receiver fuel v e c),
      )

  top-Walks :
      (fuel o : ℕ)
      → (s o).values name ≡ none
      → (s o).prototype ≡ none
      → Walks s name val throw (suc fuel) o (o ∷ [])
  unfolding set_own_str
  top-Walks fuel o e q =
      let r : resolve s name (o ∷ []) ≡ none = ground (arith, e) in
      let own : set_own_str (suc fuel) s o name val throw ≡ some (add_own_str s o name val throw) =
        ground (arith, e, q) in
      (
        rw (r, own) (add_own-Carries s o name val throw e),
        λ receiver. rw r (inl (ground (arith, e, q), refl)),
      )

  below-Walks :
      (fuel o p : ℕ) (ps : List ℕ)
      → (s o).values name ≡ none
      → (s o).prototype ≡ some p
      → Walks s name val throw fuel p ps
      → Walks s name val throw (suc fuel) o (o ∷ ps)
  unfolding set_own_str
  below-Walks fuel o p ps e q (own, foreign) =
      let r : resolve s name (o ∷ ps) ≡ resolve s name ps = ground (arith, e) in
      (rw r (own_step (foreign (object o))), λ receiver. rw r (foreign_step receiver))
    where
      own_step :
          ForeignCarries s name val
            (object o)
            throw
            (verdict s name ps (object o))
            (set_foreign_str fuel s p name val (object o) throw)
          → Carries s name val
              (object o)
              throw
              (verdict s name ps (object o))
              (set_own_str (suc fuel) s o name val throw)
      own_step (inl (u, v)) =
          let eq : set_own_str (suc fuel) s o name val throw
              ≡ some (add_own_str s o name val throw) =
            ground (arith, e, q, u) in
          rw (v, eq) (add_own-Carries s o name val throw e)
      own_step (inr (res, u, c)) =
          let eq : set_own_str (suc fuel) s o name val throw ≡ some res = ground (arith, e, q, u) in
          rw eq c

      foreign_step :
          (receiver : Value)
          → ForeignCarries s name val receiver throw
              (verdict s name ps receiver)
              (set_foreign_str (suc fuel) s o name val receiver throw)
      foreign_step receiver = elim (Bool-cases (is_object receiver p)) [
        | inr n ↦
            let eq : set_foreign_str (suc fuel) s o name val receiver throw
                ≡ set_foreign_str fuel s p name val receiver throw =
              ground (arith, e, q, n) in
            rw eq (foreign receiver)
        | inl y ↦
            let eq : set_foreign_str (suc fuel) s o name val receiver throw
                ≡ handle (set_own_str fuel s p name val throw) =
              ground (arith, e, q, y) in
            let (res, some_res) = Carries-some s name val (object p) throw _ _ own in
            inr (res, eq ∙ ap handle some_res, rw (is_object-eq receiver p y) (rw some_res at own))
      ]

  Chain-Walks :
      (fuel o : ℕ) {ps : List ℕ}
      → Chain s o ps
      → length ps ≤ fuel
      → Walks s name val throw fuel o ps
  Chain-Walks zero o (last e) le = absurd (omega arith)
  Chain-Walks zero o (next e c) le = absurd (omega arith)
  Chain-Walks (suc fuel) o (last e) le = elim (Option-cases ((s o).values name)) [
    | inl n ↦ top-Walks fuel o n e
    | inr (v, f) ↦ found-Walks fuel o [] v f
  ]
  Chain-Walks (suc fuel) o (next {p} {ps} e c) le = elim (Option-cases ((s o).values name)) [
    | inl n ↦ below-Walks fuel o p ps n e (Chain-Walks fuel p c (omega arith))
    | inr (v, f) ↦ found-Walks fuel o ps v f
  ]

module _ (rt : Objects) (s : Store) (r name : ℕ) (val : Value) (throw : Bool) where
  -- A property that the receiver has is overwritten.
  overwritten-Carries :
      (u : Slot)
      → (s r).values name ≡ some u
      → receiver_verdict (s r).extensible (some u) ≡ writes
      → Carries s name val
          (object r)
          throw
          (on_receiver s name (object r))
          (some (define_own_property_str rt r name (value_only val) throw s))
  unfolding define_own_property_str put
  overwritten-Carries u e h =
      let (v, d, q, k) = define_value rt (s r).extensible u val throw h in
      Carries-writes s name val throw r (write_str r name v s) (rw e h) (ground (arith, e, d))
        (write_str-Written r name val v s (rw e refl) (rw e q) k)

  added-Carries :
      (s r).values name ≡ none
      → Carries s name val
          (object r)
          throw
          (on_receiver s name (object r))
          (some (define_own_property_str rt r name (all_attributes val) throw s))
  unfolding define_own_property_str put reported read
  added-Carries e = elim (Bool-cases (s r).extensible) [
    | inl y ↦
        Carries-writes s name val throw r (add_str r name (plain val) s) (ground (arith, e, y))
          (ground (arith, e, y, define_new rt val throw))
          (add_str-Written r name val (plain val) s e refl (λ receiver. refl))
    | inr n ↦
        Carries-refused s name val throw (object r) (ground (arith, e, n))
          (ground (arith, e, n, define_fixed rt val throw))
  ]

  object-Carries :
      (v : Option Slot)
      → (s r).values name ≡ v
      → Carries s name val
          (object r)
          throw
          (on_receiver s name (object r))
          (some (set_on_receiver_str rt s name val (object r) throw))
  unfolding set_on_receiver_str
  object-Carries none e =
      let eq : set_on_receiver_str rt s name val (object r) throw
          ≡ define_own_property_str rt r name (all_attributes val) throw s =
        ground (arith, e) in
      rw eq (added-Carries e)
  object-Carries (some (plain w)) e =
      let eq : set_on_receiver_str rt s name val (object r) throw
          ≡ define_own_property_str rt r name (value_only val) throw s =
        ground (arith, e) in
      rw eq (overwritten-Carries (plain w) e refl)
  object-Carries (some (prop q)) e = elim (Bool-cases q.accessor) [
    | inl y ↦
        Carries-refused s name val throw (object r) (ground (arith, e, y)) (ground (arith, e, y))
    | inr n ↦ elim (Bool-cases q.writable) [
      | inr n' ↦
          Carries-refused s name val throw (object r) (ground (arith, e, n, n'))
            (ground (arith, e, n, n'))
      | inl y ↦
          let eq : set_on_receiver_str rt s name val (object r) throw
              ≡ define_own_property_str rt r name (value_only val) throw s =
            ground (arith, e, n, y) in
          rw eq (overwritten-Carries (prop q) e (ground (arith, n, y)))
    ]
  ]

on_receiver-Carries :
    (rt : Objects) (s : Store) (name : ℕ) (val receiver : Value) (throw : Bool)
    → Carries s name val receiver throw
        (on_receiver s name receiver)
        (some (set_on_receiver_str rt s name val receiver throw))
unfolding set_on_receiver_str
on_receiver-Carries rt s name val (object r) throw = object-Carries rt s r name val throw _ refl
on_receiver-Carries rt s name val receiver throw = refl

-- `setStr` has a result where the fuel is as much as the length of the object's prototype chain, and
-- carries out what OrdinarySet decides: it refuses, calls the setter found, or writes the value to
-- the receiver's own property and leaves all else as it was. The store's properties each hold the
-- fields of their own kind only.
pub set_str-Carries :
    (rt : Objects) (fuel : ℕ) (s : Store) (o name : ℕ) (val receiver : Value) (throw : Bool)
    {ps : List ℕ}
    → IsCleanStore s
    → Chain s o ps
    → length ps ≤ fuel
    → Carries s name val receiver throw
        (verdict s name ps receiver)
        (set_str rt fuel s o name val receiver throw)
unfolding set_str
set_str-Carries rt fuel s o name val receiver throw {ps} clean c le =
    let (own, foreign) = Chain-Walks s name val throw clean fuel o c le in
    elim (Bool-cases (is_object receiver o)) [
      | inl y ↦ rw y (rw (is_object-eq receiver o y) own)
      | inr n ↦ rw n (after (foreign receiver))
    ]
  where
    after :
        ForeignCarries s name val receiver throw
          (verdict s name ps receiver)
          (set_foreign_str fuel s o name val receiver throw)
        → Carries s name val receiver throw (verdict s name ps receiver) (
            unless_handled
              (set_on_receiver_str rt s name val receiver throw)
              (set_foreign_str fuel s o name val receiver throw))
    after (inl (u, v)) = rw (u, v) (on_receiver-Carries rt s name val receiver throw)
    after (inr (res, u, d)) = rw u d
