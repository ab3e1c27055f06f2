-- ===== src/Transit/Parser/Dependencies.antt =====
-- The dependencies of a block, `read_dependencies` of rust/transit/src/parser.rs.
pub mod Encoded
use micromegas.Prelude.{
  ℕ, zero, suc, ◌+◌, ◌-◌, ◌%◌, ◌^◌, ◌<◌, not, List, [], Result, ok, err, bail, panic, out_of_bounds,
  out_of_fuel, or_fail, guard, ◌>>=◌, ◌>>◌, ltb, ◌==◌, if◌then◌else◌, length, HashMap, lookup,
  insert, is_some,
}
use text.Mathlib.Text.{◌==◌ as ◌==ₛ◌}
use micromegas.Transit.Bytes.{window, read_any}
use micromegas.Transit.Utf8.{from_utf8}
use micromegas.Transit.Strings.{parse_string}
use micromegas.Transit.Value.{UserDefinedType, Value, string, object, get, get_u64}
use micromegas.Transit.Parser.{parse_pod_instance}
use micromegas.Transit.Parser.Objects.{read_header, next_object}

-- `hash.insert(id, value)`, and the assertion that it returned none.
unfoldable pub insert_new : ℕ → Value → HashMap Value → Result (HashMap Value)
insert_new id value hash = do
  guard (not (is_some (lookup id hash))) panic
  ok (insert id value hash)

-- A plain object is a dependency under its member `id`; another value is dropped.
abbrev pub insert_instance : Value → HashMap Value → Result (HashMap Value)
insert_instance (object obj) hash = do id ← get get_u64 "id" obj; insert_new id (object obj) hash
insert_instance _ hash = ok hash

module _ (from_utf16_lossy : List ℕ → List ℕ) (depth : ℕ) (udts : List UserDefinedType)
    (buffer : List ℕ) where
  unfoldable pub read_static_string : ℕ → ℕ → HashMap Value → Result (HashMap Value)
  read_static_string offset object_size hash = do
    string_id ← read_any 8 buffer offset
    let nb_utf8_bytes = (object_size + 2 ^ 64 - 8) % 2 ^ 64
    slice ← or_fail (window buffer (offset + 8) nb_utf8_bytes) out_of_bounds
    text ← or_fail (from_utf8 slice) panic
    insert_new string_id (string text) hash

  unfoldable pub read_static_string_dependency : ℕ → HashMap Value → Result (HashMap Value)
  read_static_string_dependency offset hash = do
    string_id ← read_any 8 buffer offset
    (text, cursor) ← parse_string from_utf16_lossy buffer (offset + 8)
    insert_new string_id (string text) hash

  unfoldable pub read_instance : UserDefinedType → ℕ → HashMap Value → Result (HashMap Value)
  read_instance udt offset hash = do
    guard (not (udt.size == 0)) bail
    instance_ ← parse_pod_instance udts hash buffer depth udt offset
    insert_instance instance_ hash

  -- One arm of the `match` on the name of the type.
  unfoldable pub read_dependency : UserDefinedType → ℕ → ℕ → HashMap Value → Result (HashMap Value)
  read_dependency udt offset object_size hash =
      if udt.name ==ₛ "StaticString"
      then read_static_string offset object_size hash
      else if udt.name ==ₛ "StaticStringDependency"
      then read_static_string_dependency offset hash
      else read_instance udt offset hash

  -- The loop, with fuel for the number of objects.
  unfoldable pub read_all : ℕ → ℕ → HashMap Value → Result (HashMap Value)
  read_all zero offset hash = if ltb offset (length buffer) then err out_of_fuel else ok hash
  read_all (suc fuel) offset hash =
      let rest = (do
        (udt, value_offset, object_size) ← read_header udts buffer offset
        hash' ← read_dependency udt value_offset object_size hash
        read_all fuel (next_object buffer (value_offset + object_size)) hash') in
      if ltb offset (length buffer) then rest else ok hash

  -- Where no offset wraps around, the length of the buffer is fuel enough.
  unfoldable pub read_dependencies : Result (HashMap Value)
  unfolding read_all
  read_dependencies = read_all (length buffer) 0 []
