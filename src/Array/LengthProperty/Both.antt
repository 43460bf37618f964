-- ===== src/Array/LengthProperty/Both.antt =====
-- The two representations as arrays with a length.
use mathlib.Core.List.{reverse}
use sobek.Base.{ℕ, true, false, List, [], ◌∷◌, Option, none, some, ◌≡◌, refl, arith}
use sobek.Base.Int.{ℤ}
use sobek.Property.{Slot, plain, prop}
use sobek.Array.Items.{Item}
use sobek.Array.State.{SparseArray, DenseArray, returned, succeeds, state, dec}
use sobek.Array.LengthProperty.{HasLength}
use sobek.Array.Sparse
use sobek.Array.Dense

dense_whole :
    (rs : List (Option Slot)) (l : ℕ) (count : ℤ)
    → (Dense.cut_back rs l count).1 ≡ true
    → (Dense.cut_back rs l count).0 ≡ l
unfolding Dense.cut_back
dense_whole [] l count h = refl
dense_whole (none ∷ rest) l count h = ground (arith, h, dense_whole rest l count)
dense_whole (some (plain u) ∷ rest) l count h = ground (arith, h, dense_whole rest l count)
dense_whole (some (prop p) ∷ rest) l count h = ground (arith, h, dense_whole rest l (dec count))

sparse_whole :
    (rs : List Item) (l : ℕ) (count : ℤ)
    → (Sparse.cut_back rs l count).1 ≡ true
    → (Sparse.cut_back rs l count).0 ≡ l
unfolding Sparse.cut_back
sparse_whole [] l count h = refl
sparse_whole (x ∷ rest) l count h =
    ground (arith, h, sparse_whole rest l count, sparse_whole rest l (dec count))

pub dense_fixed :
    (n : ℕ) (a : DenseArray)
    → a.length_writable ≡ false
    → Dense.set_length n false a ≡ returned false a
unfolding Dense.set_length
dense_fixed n a e = rw e refl

pub sparse_fixed :
    (n : ℕ) (a : SparseArray)
    → a.length_writable ≡ false
    → Sparse.set_length n false a ≡ returned false a
unfolding Sparse.set_length
sparse_fixed n a e = rw e refl

pub dense_length :
    (n : ℕ) (a : DenseArray)
    → succeeds (Dense.set_length n false a) ≡ true
    → (state (Dense.set_length n false a)).length ≡ n
unfolding Dense.set_length Dense.truncate Dense.cut_at
dense_length n a h = ground (arith, h, dense_whole (reverse a.values) n a.prop_value_count)

pub sparse_length :
    (n : ℕ) (a : SparseArray)
    → succeeds (Sparse.set_length n false a) ≡ true
    → (state (Sparse.set_length n false a)).length ≡ n
unfolding Sparse.set_length Sparse.truncate Sparse.cut_at
sparse_length n a h = ground (arith, h, sparse_whole (reverse a.items) n a.prop_value_count)

pub dense_writable :
    (n : ℕ) (a : DenseArray)
    → (state (Dense.set_length n false a)).length_writable ≡ a.length_writable
unfolding Dense.set_length Dense.truncate Dense.cut_at
dense_writable n a = ground arith

pub sparse_writable :
    (n : ℕ) (a : SparseArray)
    → (state (Sparse.set_length n false a)).length_writable ≡ a.length_writable
unfolding Sparse.set_length Sparse.truncate Sparse.cut_at
sparse_writable n a = ground arith

-- `getLengthProp` and `setLength` of `arrayObject`
abbrev pub dense_ops : HasLength DenseArray
dense_ops = record {
  length = λ a. a.length;
  writable = λ a. a.length_writable;
  set_writable = λ w a. record a { length_writable = w };
  setter = Dense.set_length;
  length-set_writable = λ w a. refl;
  writable-set_writable = λ w a. refl;
  setter-fixed = dense_fixed;
  setter-length = dense_length;
  setter-writable = dense_writable;
}

-- `getLengthProp` and `setLength` of `sparseArrayObject`
abbrev pub sparse_ops : HasLength SparseArray
sparse_ops = record {
  length = λ a. a.length;
  writable = λ a. a.length_writable;
  set_writable = λ w a. record a { length_writable = w };
  setter = Sparse.set_length;
  length-set_writable = λ w a. refl;
  writable-set_writable = λ w a. refl;
  setter-fixed = sparse_fixed;
  setter-length = sparse_length;
  setter-writable = sparse_writable;
}
