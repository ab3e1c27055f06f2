-- ===== src/Transit/Value.antt =====
-- What the parser of transit streams makes of their bytes: `Object`, `Value` and the casts of
-- `TransitValue` (rust/transit/src/parser.rs), and the descriptions of types that a stream carries
-- (rust/transit/src/reflect.rs). A text is the list of its UTF-8 bytes, an `f64` its bits.
use micromegas.Prelude.{
  ℕ, ◌<◌, ◌^◌, ℤ, String, ◌≡◌, refl, sym, ap, Bool, List, Option, none, some, Result, ok, err, bail,
  if◌then◌else◌, bits_of_i64, i64_of_bits, or_fail, ◌>>=◌, bits_of_i64-i64_of_bits,
}
use text.Mathlib.Text.{◌==◌ as ◌==ₛ◌}

-- `Member` and `UserDefinedType` of the reflection
pub record Member : Type 0 where
  pub name : String
  pub type_name : String
  pub offset : ℕ
  pub size : ℕ
  pub is_reference : Bool

pub record UserDefinedType : Type 0 where
  pub name : String
  pub size : ℕ
  pub members : List Member
  pub is_reference : Bool

mutual
  pub data Value : Type 0 where
    string : List ℕ → Value
    object : Object → Value
    u8 : ℕ → Value
    u32 : ℕ → Value
    u64 : ℕ → Value
    i64 : ℤ → Value
    f64 : ℕ → Value
    no_value : Value

  pub data Members : Type 0 where
    no_members : Members
    member : String → Value → Members → Members

  pub data Object : Type 0 where
    object_of : String → Members → Object

abbrev pub type_name : Object → String
type_name (object_of name rest) = name

abbrev pub members : Object → Members
members (object_of name rest) = rest

-- The first member of a name.
unfoldable pub find_member : String → Members → Option Value
find_member member_name no_members = none
find_member member_name (member name value rest) =
    if name ==ₛ member_name then some value else find_member member_name rest

-- `Object::get_ref`
unfoldable pub get_ref : String → Object → Result Value
unfolding find_member
get_ref member_name o = or_fail (find_member member_name (members o)) bail

-- `TransitValue::get` of each type that implements it.
unfoldable pub get_u8 : Value → Result ℕ
get_u8 (u8 val) = ok val
get_u8 _ = err bail

unfoldable pub get_u32 : Value → Result ℕ
get_u32 (u32 val) = ok val
get_u32 (u8 val) = ok val
get_u32 _ = err bail

unfoldable pub get_u64 : Value → Result ℕ
get_u64 (i64 val) = ok (bits_of_i64 val)
get_u64 (u64 val) = ok val
get_u64 _ = err bail

unfoldable pub get_i64 : Value → Result ℤ
get_i64 (i64 val) = ok val
get_i64 (u64 val) = ok (i64_of_bits val)
get_i64 _ = err bail

unfoldable pub get_f64 : Value → Result ℕ
get_f64 (f64 val) = ok val
get_f64 _ = err bail

unfoldable pub get_string : Value → Result (List ℕ)
get_string (string val) = ok val
get_string _ = err bail

unfoldable pub get_object : Value → Result Object
get_object (object val) = ok val
get_object _ = err bail

-- `Value::as_str`
unfoldable pub as_str : Value → Option (List ℕ)
as_str (string s) = some s
as_str _ = none

-- `Object::get`, at the type whose cast is given.
unfoldable pub get : {A : Type 0} → (Value → Result A) → String → Object → Result A
unfolding find_member
get cast member_name o = do value ← or_fail (find_member member_name (members o)) bail; cast value

-- A `U64` holds 64 bits.
abbrev pub IsU64 : Value → Type 0
IsU64 (u64 val) = val < 2 ^ 64
IsU64 _ = Unit

-- The two casts to 64 bits succeed on the same values, fail on the others with the same error, and
-- give the same 64 bits: `get::<u64>` is `get::<i64>` followed by the cast `as u64`. The value holds
-- no `U64` of more than 64 bits.
pub get_u64-get_i64 : (v : Value) → IsU64 v → get_u64 v ≡ (get_i64 v >>= λ i. ok (bits_of_i64 i))
unfolding get_u64 get_i64
get_u64-get_i64 (i64 val) h = refl
get_u64-get_i64 (u64 val) h = ap ok (sym (bits_of_i64-i64_of_bits val h))
get_u64-get_i64 (string val) h = refl
get_u64-get_i64 (object val) h = refl
get_u64-get_i64 (u8 val) h = refl
get_u64-get_i64 (u32 val) h = refl
get_u64-get_i64 (f64 val) h = refl
get_u64-get_i64 no_value h = refl
