-- ===== src/Transit/Parser.antt =====
-- The parser of transit streams, rust/transit/src/parser.rs. A buffer is the list of its bytes, and
-- pointer arithmetic on `usize` wraps at 64 bits where it subtracts.
pub mod Custom
pub mod Objects
pub mod Ends
mod Tests
pub mod Dependencies
use micromegas.Prelude.{
  ℕ, zero, suc, ◌+◌, String, Bool, false, true, ◌||◌, List, [], ◌∷◌, Option, none, some, Result, ok,
  err, bail, panic, out_of_fuel, or_fail, guard, ◌>>=◌, ◌>>◌, ltb, ◌==◌, if◌then◌else◌, length,
  get_elem?, HashMap, lookup,
}
use text.Mathlib.Text.{◌==◌ as ◌==ₛ◌}
use micromegas.Transit.Bytes.{read_any, read_i64}
use micromegas.Transit.Value.{
  Member, UserDefinedType, Value, object, u8, u32, u64, i64, f64, no_value, Members, no_members,
  member, Object, object_of, find_member,
}

-- `dependencies.get(&key)`, with a warning where it is missing.
unfoldable pub dependency_or_none : ℕ → HashMap Value → Value
dependency_or_none key dependencies = elim (lookup key dependencies) [
  | none ↦ no_value
  | some v ↦ v
]

-- `udts.iter().position(|t| t.name == name)`, and the type there
unfoldable pub find_udt : String → List UserDefinedType → Option UserDefinedType
find_udt name [] = none
find_udt name (t ∷ ts) = if t.name ==ₛ name then some t else find_udt name ts

-- `assert_eq!(size_of, member_meta.size)` and the read behind it.
read_sized : ℕ → Member → List ℕ → ℕ → (ℕ → Value) → Result Value
read_sized size m buffer at wrap = do
  guard (size == m.size) panic
  bits ← read_any size buffer at
  ok (wrap bits)

module _ (udts : List UserDefinedType) (dependencies : HashMap Value) (buffer : List ℕ) where
  -- The value of a member whose object starts at `offset`. `parse_udt` is the recursive call.
  unfoldable pub parse_member : (UserDefinedType → ℕ → Result Value) → ℕ → Member → Result Value
  unfolding read_sized
  parse_member parse_udt offset m =
      let at = offset + m.offset in
      if m.is_reference
      then (if ltb m.size 8
          then ok no_value
          else (do key ← read_any 8 buffer at; ok (dependency_or_none key dependencies)))
      else if (m.type_name ==ₛ "u8") || (m.type_name ==ₛ "uint8")
      then read_sized 1 m buffer at u8
      else if (m.type_name ==ₛ "u32") || (m.type_name ==ₛ "uint32")
      then read_sized 4 m buffer at u32
      else if (m.type_name ==ₛ "u64") || (m.type_name ==ₛ "uint64")
      then read_sized 8 m buffer at u64
      else if (m.type_name ==ₛ "i64") || (m.type_name ==ₛ "int64")
      then (do guard (8 == m.size) panic; val ← read_i64 buffer at; ok (i64 val))
      else if m.type_name ==ₛ "f64"
      then read_sized 8 m buffer at f64
      else elim (find_udt m.type_name udts) [
        | none ↦ ok no_value
        | some member_udt ↦ parse_udt member_udt at
      ]

  unfoldable pub parse_members :
      (UserDefinedType → ℕ → Result Value) → ℕ → List Member → Result Members
  unfolding parse_member
  parse_members parse_udt offset [] = ok no_members
  parse_members parse_udt offset (m ∷ ms) = do
    value ← parse_member parse_udt offset m
    rest ← parse_members parse_udt offset ms
    ok (member m.name value rest)

  -- What becomes of the members: the member `id` of a reference object, which is the dependency.
  unfoldable pub finish_instance : UserDefinedType → Members → Value
  unfolding find_member
  finish_instance udt ms =
      let whole = object (object_of udt.name ms) in
      if udt.is_reference then elim (find_member "id" ms) [ none ↦ whole | some id ↦ id ] else whole

  -- The fuel bounds how deep types are nested in one another.
  unfoldable pub parse_pod_instance : ℕ → UserDefinedType → ℕ → Result Value
  unfolding parse_members finish_instance
  parse_pod_instance zero udt offset = err out_of_fuel
  parse_pod_instance (suc depth) udt offset = do
    ms ← parse_members (parse_pod_instance depth) offset udt.members
    ok (finish_instance udt ms)
