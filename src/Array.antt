-- ===== src/Array.antt =====
-- Array objects (array.go, array_sparse.go): the dense representation, a slice of slots, and the
-- sparse one, a sorted list of indexed slots. Each turns into the other as its population changes.
pub mod Search
pub mod Items
pub mod State
pub mod Slots
pub mod Own
pub mod Sparse
pub mod Dense
pub mod LengthProperty
mod Examples
