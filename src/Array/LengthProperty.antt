-- ===== src/Array/LengthProperty.antt =====
-- `defineArrayLength` (array.go): defining the `length` of an array, in either representation. The
-- new length is the descriptor's value after `toLengthUint32`, which throws first where it must.
pub mod Both
use sobek.Base.{
  ℕ, zero, suc, Bool, true, false, not, ◌||◌, ◌⊎◌, inl, inr, Option, none, some, ◌≡◌, refl, arith,
  leb, ◌==◌, if◌then◌else◌, is_some, length, ◌∙◌, Bool-cases, ==→≡,
}
use sobek.Property.{PropertyDescriptor, Flag, flag_not_set, is_flag_true, is_set, flag_bool}
use sobek.Array.State.{SparseArray, DenseArray, Result, returned, refuse, succeeds, state}
use sobek.Array.Sparse
use sobek.Array.Dense

-- What `defineArrayLength` uses of an array, and the laws that its setter keeps.
pub record HasLength (A : Type 0) : Type 0 where
  pub length : A → ℕ
  pub writable : A → Bool
  pub set_writable : Bool → A → A
  pub setter : ℕ → Bool → A → Result A
  pub length-set_writable : (w : Bool) (a : A) → length (set_writable w a) ≡ length a
  pub writable-set_writable : (w : Bool) (a : A) → writable (set_writable w a) ≡ w
  pub setter-fixed : (n : ℕ) (a : A) → writable a ≡ false → setter n false a ≡ returned false a
  pub setter-length :
      (n : ℕ) (a : A) → succeeds (setter n false a) ≡ true → length (state (setter n false a)) ≡ n
  pub setter-writable : (n : ℕ) (a : A) → writable (state (setter n false a)) ≡ writable a

module _ {A : Type 0} (ops : HasLength A) where
  unfoldable pub change_length : Option ℕ → A → Bool × A
  change_length none a = (true, a)
  change_length (some n) a =
      let r = ops.setter n false a in if n == ops.length a then (true, a) else (succeeds r, state r)

  abbrev pub finish : (throw ret : Bool) → A → Result A
  finish throw ret a = if ret then returned true a else refuse throw a

  unfoldable pub change_writable : Flag → (throw ret : Bool) → A → Result A
  change_writable w throw ret a =
      if not (is_set w)
      then finish throw ret a
      else if ops.writable a
      then finish throw ret (ops.set_writable (flag_bool w) a)
      else if flag_bool w
      then refuse throw a
      else finish throw ret a

  -- `defineArrayLength`
  unfoldable pub define_array_length : Option ℕ → PropertyDescriptor → (throw : Bool) → A → Result A
  unfolding change_length change_writable
  define_array_length new_len descr throw a =
      let (ret, a') = change_length new_len a in
      if is_flag_true descr.configurable
        || (is_flag_true descr.enumerable || (is_some descr.getter || is_some descr.setter))
      then refuse throw a
      else change_writable descr.writable throw ret a'

  change_length_fixed :
      (new_len : Option ℕ) (a : A) → ops.writable a ≡ false → (change_length new_len a).1 ≡ a
  unfolding change_length
  change_length_fixed none a e = refl
  change_length_fixed (some n) a e = elim (Bool-cases (n == ops.length a)) [
    | inl y ↦ rw y refl
    | inr no' ↦ rw (no', ops.setter-fixed n a e) refl
  ]

  change_writable_fixed :
      (w : Flag) (throw ret : Bool) (a : A)
      → ops.writable a ≡ false
      → state (change_writable w throw ret a) ≡ a
  unfolding change_writable
  change_writable_fixed w throw ret a e = ground (arith, e)

  -- An array whose length is not writable keeps its state, whatever is defined.
  pub define_array_length_fixed :
      (new_len : Option ℕ) (descr : PropertyDescriptor) (throw : Bool) (a : A)
      → ops.writable a ≡ false
      → state (define_array_length new_len descr throw a) ≡ a
  unfolding define_array_length
  define_array_length_fixed new_len descr throw a e =
      let q = change_length_fixed new_len a e in
      let q' = change_writable_fixed descr.writable throw (change_length new_len a).0 a e in
      ground (arith, q, q')

  change_length-length :
      (new_len : Option ℕ) (a : A)
      → (change_length new_len a).0 ≡ true
      → ops.length (change_length new_len a).1 ≡ (elim new_len [ none ↦ ops.length a | some n ↦ n ])
  unfolding change_length
  change_length-length none a h = refl
  change_length-length (some n) a h = elim (Bool-cases (n == ops.length a)) [
    | inl y ↦ ground (arith, y)
    | inr no' ↦ rw no' (ops.setter-length n a (rw no' at h))
  ]

  change_length-writable :
      (new_len : Option ℕ) (a : A) → ops.writable (change_length new_len a).1 ≡ ops.writable a
  unfolding change_length
  change_length-writable none a = refl
  change_length-writable (some n) a = elim (Bool-cases (n == ops.length a)) [
    | inl y ↦ rw y refl
    | inr no' ↦ rw no' (ops.setter-writable n a)
  ]

  change_writable-succeeds :
      (w : Flag) (throw ret : Bool) (a : A)
      → succeeds (change_writable w throw ret a) ≡ true
      → (ret ≡ true)
        × (ops.length (state (change_writable w throw ret a)) ≡ ops.length a)
        × (ops.writable (state (change_writable w throw ret a))
            ≡ (if is_set w then flag_bool w else ops.writable a))
  unfolding change_writable
  change_writable-succeeds w throw ret a h =
      let x = ops.length-set_writable (flag_bool w) a in
      let y = ops.writable-set_writable (flag_bool w) a in
      (ground (arith, h), ground (arith, h, x), ground (arith, h, y))

  -- A definition of `length` that succeeds gives it the value asked for, or leaves it as it was where
  -- none is, and makes it writable or not as asked for, or else leaves that as it was.
  pub define_array_length-succeeds :
      (new_len : Option ℕ) (descr : PropertyDescriptor) (throw : Bool) (a : A)
      → succeeds (define_array_length new_len descr throw a) ≡ true
      → (ops.length (state (define_array_length new_len descr throw a))
          ≡ (elim new_len [ none ↦ ops.length a | some n ↦ n ]))
        × (ops.writable (state (define_array_length new_len descr throw a))
            ≡ (if is_set descr.writable then flag_bool descr.writable else ops.writable a))
  unfolding define_array_length
  define_array_length-succeeds new_len descr throw a h =
      let (ret, a') = change_length new_len a in
      let accepted : succeeds (change_writable descr.writable throw ret a') ≡ true =
        ground (arith, h) in
      let (r, l, w) = change_writable-succeeds descr.writable throw ret a' accepted in
      let e : define_array_length new_len descr throw a
          ≡ change_writable descr.writable throw ret a' =
        ground (arith, h) in
      rw e (l ∙ change_length-length new_len a r, w ∙ rw (change_length-writable new_len a) refl)
