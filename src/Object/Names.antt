-- ===== src/Object/Names.antt =====
-- The list of an object's property names stays that of its properties.
use sobek.Base.{
  member, Distinct, member-append, Distinct-append, ℕ, Bool, true, false, List, [], ◌∷◌, none, some,
  ◌≡◌, refl, arith, ◌==◌, ==→≡, if◌then◌else◌, is_some, Bool-cases, Option-cases, inl, inr,
}
use sobek.Value.{Objects}
use sobek.Property.{
  Slot, PropertyDescriptor, Outcome, define_own_property, defined, rejected, type_error,
}
use sobek.Array.State.{returned, threw, refuse, state}
use sobek.Object.{
  BaseObject, Store, write_object, write_str, add_str, put, remove_name, delete_str, erase_str,
  check_delete, define_own_property_str, after_error,
}

-- The names are those of the properties, each once.
pub record Named (b : BaseObject) : Type 0 where
  pub listed : (n : ℕ) → member n b.prop_names ≡ is_some (b.values n)
  pub distinct : Distinct b.prop_names

abbrev pub IsNamed : Store → Type 0
IsNamed s = (o : ℕ) → Named (s o)

member-remove_name :
    (n k : ℕ) (ns : List ℕ)
    → Distinct ns
    → member n (remove_name k ns) ≡ (if n == k then false else member n ns)
member-remove_name n k [] d = ground arith
member-remove_name n k (m ∷ ns) d = ground (arith, member-remove_name n k ns d.1, d.0)

Distinct-remove_name : (k : ℕ) (ns : List ℕ) → Distinct ns → Distinct (remove_name k ns)
Distinct-remove_name k [] d = tt
Distinct-remove_name k (m ∷ ns) d = elim (Bool-cases (m == k)) [
  | inl y ↦ rw y d.1
  | inr n ↦ rw n (ground (arith, member-remove_name m k ns d.1, d.0), Distinct-remove_name k ns d.1)
]

-- A change of one object.
write_object-IsNamed :
    (o : ℕ) (b : BaseObject) (s : Store) → IsNamed s → Named b → IsNamed (write_object o b s)
write_object-IsNamed o b s g n a = elim (Bool-cases (a == o)) [
  | inl y ↦ rw y n
  | inr h ↦ rw h (g a)
]

add_str-IsNamed :
    (o name : ℕ) (v : Slot) (s : Store)
    → (s o).values name ≡ none
    → IsNamed s
    → IsNamed (add_str o name v s)
add_str-IsNamed o name v s new g = write_object-IsNamed o _ s g (record {
  listed = λ n. ground (arith, member-append n name (s o).prop_names, (g o).listed n, new);
  distinct =
      Distinct-append name (s o).prop_names (ground (arith, (g o).listed name, new)) (g o).distinct;
})

write_str-IsNamed :
    (o name : ℕ) (v : Slot) (s : Store)
    → is_some ((s o).values name) ≡ true
    → IsNamed s
    → IsNamed (write_str o name v s)
write_str-IsNamed o name v s old g = write_object-IsNamed o _ s g (record {
  listed = λ n. ground (arith, (g o).listed n, old, ==→≡ n name);
  distinct = (g o).distinct;
})

put-IsNamed : (o name : ℕ) (v : Slot) (s : Store) → IsNamed s → IsNamed (put o name v s)
unfolding put
put-IsNamed o name v s g = elim (Option-cases ((s o).values name)) [
  | inl n ↦ rw n (add_str-IsNamed o name v s n g)
  | inr (u, e) ↦ rw e (write_str-IsNamed o name v s (rw e refl) g)
]

pub refuse-IsNamed : (throw : Bool) (s : Store) → IsNamed s → IsNamed (state (refuse throw s))
refuse-IsNamed true s g = g
refuse-IsNamed false s g = g

-- A deletion keeps the list of names that of the properties.
pub delete_str-IsNamed :
    (o name : ℕ) (throw : Bool) (s : Store)
    → IsNamed s
    → IsNamed (state (delete_str o name throw s))
unfolding delete_str
delete_str-IsNamed o name throw s g = elim (Option-cases ((s o).values name)) [
  | inl n ↦ let q : delete_str o name throw s ≡ returned true s = ground (arith, n) in rw q g
  | inr (v, e) ↦ elim (Bool-cases (check_delete v)) [
    | inr n ↦
        let q : delete_str o name throw s ≡ refuse throw s = ground (arith, e, n) in
        rw q (refuse-IsNamed throw s g)
    | inl y ↦
        let q : delete_str o name throw s ≡ returned true (erase_str o name s) =
          ground (arith, e, y) in
        rw q (
          write_object-IsNamed o _ s g (record {
            listed = λ n.
                ground (
                  arith,
                  member-remove_name n name (s o).prop_names (g o).distinct,
                  (g o).listed n,
                );
            distinct = Distinct-remove_name name (s o).prop_names (g o).distinct;
          }))
  ]
]

no_error_slot :
    (rt : Objects) (extensible : Bool) (descr : PropertyDescriptor) (throw : Bool) (v : Slot)
    → define_own_property rt extensible none descr throw ≡ type_error (some v)
    → ⊥
unfolding define_own_property
no_error_slot rt extensible descr throw v h = ground (arith, h)

-- So does a definition, also where it throws.
pub define_own_property_str-IsNamed :
    (rt : Objects) (o name : ℕ) (descr : PropertyDescriptor) (throw : Bool) (s : Store)
    → IsNamed s
    → IsNamed (state (define_own_property_str rt o name descr throw s))
unfolding define_own_property_str
define_own_property_str-IsNamed rt o name descr throw s g =
    by_outcome (define_own_property rt (s o).extensible ((s o).values name) descr throw) refl
  where
    by_outcome :
        (r : Outcome)
        → define_own_property rt (s o).extensible ((s o).values name) descr throw ≡ r
        → IsNamed (
            state (elim r [
              | defined v ↦ returned true (put o name v s)
              | rejected ↦ returned false s
              | type_error left ↦ threw (after_error o name left s)
            ]))
    by_outcome (defined v) e = put-IsNamed o name v s g
    by_outcome rejected e = g
    by_outcome (type_error none) e = g
    by_outcome (type_error (some v)) e = elim (Option-cases ((s o).values name)) [
      | inl n ↦ absurd (no_error_slot rt (s o).extensible descr throw v (rw n at e))
      | inr (u, q) ↦ write_str-IsNamed o name v s (rw q refl) g
    ]
