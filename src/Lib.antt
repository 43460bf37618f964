-- ===== src/Lib.antt =====
-- sobek is an ECMAScript engine in Go: a parser, a compiler, a virtual machine and an object model
-- with the built-in objects. This library models parts of the object model and of the parser's
-- support, each as functions that follow the code, and proves what makes them correct.
--
-- Base.antt has the shared names: the native numbers, Boolean tests, the conditional, lists and
-- integers. Every other file belongs to one of eight parts.
--
-- Values (Value.antt): the dynamic types of value.go with `SameAs`, `StrictEquals` and `hash`. A
--   float64 is its bit pattern, a string its code units. Which Go values two wrapper objects hold,
--   and which objects are callable, is the argument `Objects` of the definitions that ask; the random
--   constants of value.go, the sums of maphash and the addresses are the argument `Hashes`.
--   Value/Hashing.antt has the keys on which `hash` agrees with `SameAs` (not a float64 with an
--   integral value, nor a wrapper object: on those it does not), and Value/Sameness.antt lemmas.
--
-- Properties (Property.antt): `valueProperty` (value.go), `PropertyDescriptor`,
--   `isCompatiblePropertyDescriptor` and `_defineOwnProperty` (object.go). Property/Spec.antt states
--   ECMAScript's ValidateAndApplyPropertyDescriptor on the property that
--   `valuePropToDescriptorObject` (builtin_object.go) reports, and Property/Refinement.antt compares.
--
-- Arrays (Array.antt): array objects in their two representations. Array/Dense.antt is array.go, a
--   slice of slots with a capacity; Array/Sparse.antt is array_sparse.go, a list of indexed slots in
--   the order of the indexes, which Array/Search.antt finds by `sort.Search`. An operation takes the
--   array's state and returns a `Result`: a flag, a TypeError or a call of a setter, with the state
--   it leaves; the call of a setter has its receiver and its argument. `define_idx_property` calls `define_own_property`; where the population asks for it,
--   `store_new` and `store_property` switch the representation (`to_dense`, `to_sparse`). What the
--   prototype's `setForeignIdx` answers is an argument of `set_own_idx`. Array/Items and Array/Slots
--   have the lemmas on the two kinds of lists; Array/LengthProperty.antt is `defineArrayLength`, over
--   an interface that both representations fill; Array/Own.antt has the view of an array that forgets
--   the representation (`own`) and the invariant. The binary search runs on fuel, the length of the
--   list, and the loop of `growCap` on 4 rounds, since four quarters more than double a capacity of
--   1024; both are shown to be enough. Indexes and lengths are below 2 ^ 32, and a capacity is taken
--   not to overflow an `int`.
--
-- Objects (Object.antt): ordinary objects of object.go in a store, with string and symbol names:
--   reading (Object/Get.antt), assigning (Object/Assign.antt: `setOwnStr`, `_setForeignStr`,
--   `Object.setStr` and those on symbols), deleting, defining and `setProto` (Object/Chain.antt). A
--   name is a number. Object/Written.antt has ECMAScript's OrdinarySet, which Object/Set.antt
--   compares; the call of a setter has the receiver and the argument. A walk up the prototypes runs on fuel, the length of the chain; Object/Chain.antt shows
--   that chains stay finite.
--
-- Ordered maps (OrderedMap.antt): map.go, the hash table with a linked list that Map, Set and symbol
--   properties use. Entries lie in a heap by their number. OrderedMap/Links, Unlink and Buckets have
--   the lemmas on chains; OrderedMap/Find, Insert and Remove keep the invariant; OrderedMap/Assoc is
--   the association list that a map stands for; OrderedMap/Contents, Run and Copy compare; and
--   OrderedMap/Iterator, Meanwhile and Cleared are the iterator and the changes on its way. Keys are
--   hashed by `hash_value`. `lookup`, `clear` and `copyTo` run on fuel, the number of entries, which is shown
--   to be enough; `next` runs on fuel of which enough is shown to exist.
--
-- Promises (Promise.antt): builtin_promise.go, with the job queue of runtime.go. A pair of resolving
--   functions is a promise and the flag they share; the calls of the rejection tracker are kept in a
--   list. Promise/Owners counts who may still settle a promise, Promise/Settling and Kept have what
--   settling and each operation do, Promise/Runs is the relation of what scripts and jobs do, in
--   which a getter or a callback is a run within the run, and Promise/Reactions compares the orders
--   of adding and settling. Handlers are numbers: what they do is a run.
--
-- Integer powers (Power.antt): ipow.go, on 64-bit words in two's complement. A negative
--   exponent, out of range of a table, has no result. Power/Modular.antt has the powers modulo the
--   size of a word, Power/Signed.antt those of signed numbers, Power/Tables.antt checks the tables,
--   and Power/Exact.antt puts them together.
--
-- Files (File.antt): file/file.go, the files of a set, the cache of line starts that `Position` fills
--   as it goes, and the search in it. The scan runs on fuel, the offset asked for, which is shown to
--   be enough. The source map is an argument, as its lookup is in another package.
--
-- Not modelled: the lexer, the parser and the compiler, the virtual machine, the order of integer
-- names and the iterators over an object's names, the built-in functions other than those named,
-- modules, typed arrays, regular expressions (matching is done by other packages), dates, the
-- conversions between Go and script values (which rest on reflection), profiling and debugging.
pub mod Base
pub mod Value
pub mod Property
pub mod Array
pub mod File
pub mod Object
pub mod OrderedMap
pub mod Power
pub mod Promise
