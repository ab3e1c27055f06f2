-- ===== src/Transit/Parser/Objects.antt =====
-- The loop over the objects in a buffer, `parse_object_buffer` of rust/transit/src/parser.rs. The
-- callback is a function on the state that its closure captures.
pub mod Header
pub mod Encoded
pub mod Laws
pub mod Total
use micromegas.Prelude.{
  ℕ, zero, suc, ◌+◌, Bool, true, false, List, Result, ok, err, bail, panic, out_of_fuel, or_fail,
  ◌>>=◌, ltb, leb, ◌%◌, ◌^◌, ◌==◌, if◌then◌else◌, length, get_elem?, HashMap,
}
use micromegas.Transit.Bytes.{read_any}
use micromegas.Transit.Value.{UserDefinedType, Value}
use micromegas.Transit.Parser.{parse_pod_instance}
use micromegas.Transit.Parser.Custom.{parse_custom_instance}

module _ (udts : List UserDefinedType) (buffer : List ℕ) where
  -- The type of the object at an offset, where its value starts, and how many bytes it takes.
  unfoldable pub read_header : ℕ → Result (UserDefinedType × ℕ × ℕ)
  read_header offset = do
    type_index ← or_fail (get_elem? buffer offset) panic
    udt ← or_fail (get_elem? udts type_index) bail
    if udt.size == 0
        then (do obj_size ← read_any 4 buffer (offset + 1); ok (udt, offset + 1 + 4, obj_size))
        else ok (udt, offset + 1, udt.size)

-- `offset += object_size` on `usize`: the sum wraps around where it is behind the buffer; within the
-- buffer, whose length a `usize` holds, it does not.
unfoldable pub next_object : List ℕ → ℕ → ℕ
next_object buffer behind = if leb behind (length buffer) then behind else behind % 2 ^ 64

module _ (from_utf16_lossy : List ℕ → List ℕ) (depth : ℕ) (dependencies : HashMap Value)
    (udts : List UserDefinedType) (buffer : List ℕ) where
  unfoldable pub parse_instance : UserDefinedType → ℕ → ℕ → Result Value
  parse_instance udt offset object_size =
      if udt.size == 0
      then parse_custom_instance from_utf16_lossy depth udts dependencies buffer udt offset
          object_size
      else parse_pod_instance udts dependencies buffer depth udt offset

  module _ {S : Type 0} (fun : Value → S → Result (Bool × S)) where
    -- The loop, with fuel for the number of objects.
    unfoldable pub parse_objects : ℕ → ℕ → S → Result (Bool × S)
    parse_objects zero offset s =
        if ltb offset (length buffer) then err out_of_fuel else ok (true, s)
    parse_objects (suc fuel) offset s =
        let rest = (do
          (udt, value_offset, object_size) ← read_header udts buffer offset
          instance_ ← parse_instance udt value_offset object_size
          (continue, s') ← fun instance_ s
          let next = parse_objects fuel (next_object buffer (value_offset + object_size)) s'
          if continue then next else ok (false, s')) in
        if ltb offset (length buffer) then rest else ok (true, s)

    -- Where no offset wraps around, every object takes a byte at least, and the length of the buffer is
    -- fuel enough.
    unfoldable pub parse_object_buffer : S → Result (Bool × S)
    unfolding parse_objects
    parse_object_buffer s = parse_objects (length buffer) 0 s
