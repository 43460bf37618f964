-- ===== src/Value.antt =====
-- The values of the interpreter (value.go): the dynamic types behind the interface `Value`, and
-- `SameAs` and `StrictEquals` of each.
-- A Go `float64` is its bit pattern. A string is its UTF-16 code units, with the representation
-- (`asciiString` or `unicodeString`) beside it; `importedString` and `concatString`, which are
-- views that flatten to one of the two, are not told apart. A pointer is a number.
pub mod Sameness
pub mod Hashing
use sobek.Base.{
  ℕ, ◌+◌, ◌*◌, ◌/◌, ◌%◌, ◌^◌, ◌-◌, Bool, true, false, not, ◌&&◌, ◌||◌, List, [], ◌∷◌, Option, none,
  some, ltb, ◌==◌, if◌then◌else◌, bool_eq,
}
use sobek.Base.Int.{ℤ, pos, negsuc, nat_abs, is_neg, int_eq}

pub data StringKind : Type 0 where
  ascii_string unicode_string : StringKind

pub data Value : Type 0 where
  undefined : Value
  null : Value
  bool : Bool → Value
  int : ℤ → Value
  float : ℕ → Value
  string : StringKind → List ℕ → Value
  symbol : ℕ → Value
  big_int : ℤ → Value
  object : ℕ → Value

-- What an object's `self` (an `objectImpl`) decides by dynamic dispatch: `equal`, for objects that
-- wrap a Go value, and `assertCallable`.
pub record Objects : Type 0 where
  pub equal : ℕ → ℕ → Bool
  pub callable : ℕ → Bool

-- Parts of a float64.
abbrev pub exponent : ℕ → ℕ
exponent f = f / 2 ^ 52 % 2048

abbrev pub fraction : ℕ → ℕ
fraction f = f % 2 ^ 52

unfoldable pub is_nan : ℕ → Bool
is_nan f = exponent f == 2047 && not (fraction f == 0)

unfoldable pub is_zero : ℕ → Bool
is_zero f = f % 2 ^ 63 == 0

unfoldable pub signbit : ℕ → Bool
signbit f = f / 2 ^ 63 % 2 == 1

-- `==` of two float64s.
unfoldable pub float_eq : ℕ → ℕ → Bool
unfolding is_nan is_zero
float_eq f g = not (is_nan f) && (not (is_nan g) && (f == g || is_zero f && is_zero g))

-- |f| * 2 ^ 1075 of a finite float64.
unfoldable pub scaled_abs : ℕ → ℕ
scaled_abs f = if exponent f == 0 then fraction f * 2 else (fraction f + 2 ^ 52) * 2 ^ exponent f

-- `float64(i) == f` for an `i` that a float64 holds exactly, as every `valueInt` is.
unfoldable pub float_eq_int : ℕ → ℤ → Bool
unfolding scaled_abs is_zero signbit
float_eq_int f i =
    not (exponent f == 2047)
    && (scaled_abs f == nat_abs i * 2 ^ 1075 && (is_zero f || bool_eq (signbit f) (is_neg i)))

unfoldable pub float_same_as : ℕ → ℕ → Bool
unfolding is_nan float_eq is_zero signbit
float_same_as f g =
    if is_nan f && is_nan g
    then true
    else (let ret = float_eq f g in
        if ret && is_zero f then bool_eq (signbit f) (signbit g) else ret)

unfoldable pub float_same_as_int : ℕ → ℤ → Bool
unfolding float_eq_int is_zero signbit
float_same_as_int f i =
    let ret = float_eq_int f i in if ret && is_zero f then not (signbit f) else ret

unfoldable pub kind_eq : StringKind → StringKind → Bool
kind_eq ascii_string ascii_string = true
kind_eq unicode_string unicode_string = true
kind_eq _ _ = false

unfoldable pub units_eq : List ℕ → List ℕ → Bool
units_eq [] [] = true
units_eq (a ∷ s) (b ∷ t) = a == b && units_eq s t
units_eq _ _ = false

-- `(*Object).StrictEquals`, both pointers not nil.
unfoldable pub object_eq : Objects → ℕ → ℕ → Bool
object_eq rt a b = a == b || rt.equal a b

-- `SameAs`, by the dynamic type of the receiver.
unfoldable pub same_as : Objects → Value → Value → Bool
unfolding float_same_as float_same_as_int kind_eq units_eq object_eq
same_as rt undefined undefined = true
same_as rt null null = true
same_as rt (bool a) (bool b) = bool_eq a b
same_as rt (int a) (int b) = int_eq a b
same_as rt (float a) (float b) = float_same_as a b
same_as rt (float a) (int b) = float_same_as_int a b
same_as rt (string k s) (string l t) = kind_eq k l && units_eq s t
same_as rt (symbol a) (symbol b) = a == b
same_as rt (big_int a) (big_int b) = int_eq a b
same_as rt (object a) (object b) = object_eq rt a b
same_as rt _ _ = false

-- `StrictEquals`
unfoldable pub strict_equals : Objects → Value → Value → Bool
unfolding float_eq float_eq_int kind_eq units_eq object_eq
strict_equals rt undefined undefined = true
strict_equals rt null null = true
strict_equals rt (bool a) (bool b) = bool_eq a b
strict_equals rt (int a) (int b) = int_eq a b
strict_equals rt (int a) (float b) = float_eq_int b a
strict_equals rt (float a) (float b) = float_eq a b
strict_equals rt (float a) (int b) = float_eq_int a b
strict_equals rt (string k s) (string l t) = kind_eq k l && units_eq s t
strict_equals rt (symbol a) (symbol b) = a == b
strict_equals rt (big_int a) (big_int b) = int_eq a b
strict_equals rt (object a) (object b) = object_eq rt a b
strict_equals rt _ _ = false

-- What the hash methods take from outside: the random constants, the sums of hash/maphash over a
-- string and an integer, and the addresses of symbols and objects.
pub record Hashes : Type 0 where
  pub hash_undef : ℕ
  pub hash_null : ℕ
  pub hash_true : ℕ
  pub hash_false : ℕ
  pub string_sum : StringKind → List ℕ → ℕ
  pub big_int_sum : ℤ → ℕ
  pub symbol_address : ℕ → ℕ
  pub object_address : ℕ → ℕ

-- `uint64(i)`
abbrev pub int_hash : ℤ → ℕ
int_hash (pos n) = n % 2 ^ 64
int_hash (negsuc n) = (2 ^ 64 - 1) - n % 2 ^ 64

-- `hash`, by the dynamic type. The test for -0 compares float64s, so it accepts both zeros.
unfoldable pub hash_value : Hashes → Value → ℕ
unfolding is_zero
hash_value hs undefined = hs.hash_undef
hash_value hs null = hs.hash_null
hash_value hs (bool b) = if b then hs.hash_true else hs.hash_false
hash_value hs (int i) = int_hash i
hash_value hs (float f) = if is_zero f then 0 else f
hash_value hs (string k s) = hs.string_sum k s
hash_value hs (symbol a) = hs.symbol_address a
hash_value hs (big_int i) = hs.big_int_sum i
hash_value hs (object o) = hs.object_address o
