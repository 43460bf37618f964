-- ===== src/Object/Slots.antt =====
-- The own slot and the slot of a prototype: what an assignment makes of each.
use sobek.Base.{
  ℕ, suc, Bool, true, false, Option, none, some, ◌≡◌, ◌⊎◌, inl, inr, refl, arith, Bool-cases,
}
use sobek.Value.{Value, object}
use sobek.Property.{Slot, plain, prop, set}
use sobek.Property.Spec.{reported, CleanSlot}
use sobek.Array.State.{Result, called, setter_call, refuse}
use sobek.Object.{read, Store, write_str}
use sobek.Object.Assign.{Foreign, unhandled, handled, add_own_str, set_own_str, set_foreign_str}
use sobek.Object.Written.{Carries, Verdict, on_receiver, slot_verdict}
use sobek.Object.Defined.{
  Carries-calls, Carries-refused, Carries-writes, add_str-Written, write_str-Written,
}

-- What a foreign setter makes of an assignment: it carries the verdict out, or leaves it to the
-- receiver.
abbrev pub ForeignCarries :
    Store → ℕ → Value → (receiver : Value) → Bool → Verdict → Option Foreign → Type 0
ForeignCarries s name val receiver throw v f =
    (f ≡ some unhandled) × (v ≡ on_receiver s name receiver)
    ⊎ ((r : Result Store) × (f ≡ some (handled r)) × Carries s name val receiver throw v (some r))

module _ (s : Store) (o name : ℕ) (val : Value) (throw : Bool) where
  pub add_own-Carries :
      (s o).values name ≡ none
      → Carries s name val
          (object o)
          throw
          (on_receiver s name (object o))
          (some (add_own_str s o name val throw))
  unfolding reported read
  add_own-Carries new = elim (Bool-cases (s o).extensible) [
    | inl y ↦
        Carries-writes s name val throw o _ (ground (arith, new, y)) (ground (arith, y))
          (add_str-Written o name val (plain val) s new refl (λ receiver. refl))
    | inr n ↦
        Carries-refused s name val throw (object o) (ground (arith, new, n)) (ground (arith, n))
  ]

  -- An own property decides the assignment to its object.
  pub own_slot-Carries :
      (fuel : ℕ) (v : Slot)
      → (s o).values name ≡ some v
      → CleanSlot (some v)
      → Carries s name val
          (object o)
          throw
          (slot_verdict (some v) (on_receiver s name (object o)))
          (set_own_str (suc fuel) s o name val throw)
  unfolding set_own_str set reported read
  own_slot-Carries fuel (plain w) e c =
      Carries-writes s name val throw o (write_str o name (plain val) s) (ground (arith, e))
        (rw e refl)
        (write_str-Written o name val (plain val) s (rw e refl) (rw e refl) (λ receiver. refl))
  own_slot-Carries fuel (prop p) e c = by_setter p.setter_func refl
    where
      by_setter :
          (f : Option ℕ)
          → p.setter_func ≡ f
          → Carries s name val
              (object o)
              throw
              (slot_verdict (some (prop p)) (on_receiver s name (object o)))
              (set_own_str (suc fuel) s o name val throw)
      by_setter (some f) q =
          let kind : p.accessor ≡ true = ground (arith, q, c.data_setter) in
          Carries-calls s name val throw (object o) f (ground (arith, kind, q))
            (ground (arith, e, q))
      by_setter none q = elim (Bool-cases p.writable) [
        | inl y ↦
            let kind : p.accessor ≡ false = ground (arith, y, c.accessor_writable) in
            Carries-writes s name val throw o
              (write_str o name (prop (record p { value = some val })) s)
              (ground (arith, kind, y, e)) (ground (arith, e, q, y))
              (write_str-Written o name val (prop (record p { value = some val })) s (rw e refl)
                (ground (arith, e, kind)) (λ receiver. ground (arith, kind, c.data_getter)))
        | inr n ↦
            Carries-refused s name val throw (object o) (ground (arith, n, q))
              (ground (arith, e, q, n))
      ]

  pub foreign_slot-Carries :
      (receiver : Value) (fuel : ℕ) (v : Slot)
      → (s o).values name ≡ some v
      → CleanSlot (some v)
      → ForeignCarries s name val receiver throw
          (slot_verdict (some v) (on_receiver s name receiver))
          (set_foreign_str (suc fuel) s o name val receiver throw)
  unfolding set_foreign_str
  foreign_slot-Carries receiver fuel (plain w) e c = inl (rw e refl, refl)
  foreign_slot-Carries receiver fuel (prop p) e c = by_setter p.setter_func refl
    where
      by_setter :
          (f : Option ℕ)
          → p.setter_func ≡ f
          → ForeignCarries s name val receiver throw
              (slot_verdict (some (prop p)) (on_receiver s name receiver))
              (set_foreign_str (suc fuel) s o name val receiver throw)
      by_setter (some f) q =
          let kind : p.accessor ≡ true = ground (arith, q, c.data_setter) in
          inr (
            called (setter_call f (some receiver) val) s,
            ground (arith, e, q),
            Carries-calls s name val throw receiver f (ground (arith, kind, q)) refl,
          )
      by_setter none q = elim (Bool-cases p.writable) [
        | inl y ↦
            let kind : p.accessor ≡ false = ground (arith, y, c.accessor_writable) in
            inl (ground (arith, e, q, y), ground (arith, kind, y))
        | inr n ↦ inr (
          refuse throw s,
          ground (arith, e, q, n),
          Carries-refused s name val throw receiver (ground (arith, n, q)) refl,
        )
      ]
