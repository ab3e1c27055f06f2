-- ===== src/Transit/Parser/Custom.antt =====
-- The objects of rust/transit/src/parser.rs that are no plain members: the log events with a text at
-- their end, `parse_custom_instance`.
use micromegas.Prelude.{
  ℕ, ◌+◌, ◌-◌, ◌%◌, ◌^◌, List, none, some, Result, ok, err, bail, panic, out_of_bounds, out_of_fuel,
  or_fail, ◌>>=◌, if◌then◌else◌, HashMap,
}
use text.Mathlib.Text.{◌==◌ as ◌==ₛ◌}
use micromegas.Transit.Bytes.{window, read_any, read_i64}
use micromegas.Transit.Strings.{read_dyn_string, parse_string}
use micromegas.Transit.Value.{
  UserDefinedType, Value, string, object, u8, u32, i64, Members, no_members, member, object_of,
}
use micromegas.Transit.Parser.{dependency_or_none, find_udt, parse_pod_instance}

-- `(a - b) as u32` on `usize`
abbrev pub sub_as_u32 : ℕ → ℕ → ℕ
sub_as_u32 a b = (a + 2 ^ 64 - b) % 2 ^ 64 % 2 ^ 32

unfoldable pub parse_log_string_event : HashMap Value → ℕ → ℕ → List ℕ → Result Members
unfolding dependency_or_none
parse_log_string_event dependencies offset object_size buffer = do
  desc_id ← read_any 8 buffer offset
  time ← read_i64 buffer (offset + 8)
  msg ← read_dyn_string buffer (offset + 16) (some (sub_as_u32 object_size 16))
  ok (
      member "time" (i64 time) (
        member "msg" (string msg)
          (member "desc" (dependency_or_none desc_id dependencies) no_members)))

-- An `Err` leaves the object without members, a panic goes on.
abbrev pub members_or_none : Result Members → Result Members
members_or_none (ok ms) = ok ms
members_or_none (err bail) = ok no_members
members_or_none (err panic) = err panic
members_or_none (err out_of_bounds) = err out_of_bounds
members_or_none (err out_of_fuel) = err out_of_fuel

module _ (from_utf16_lossy : List ℕ → List ℕ) (depth : ℕ) (udts : List UserDefinedType)
    (dependencies : HashMap Value) where
  unfoldable pub parse_log_string_interop_event_v3 : List ℕ → Result Members
  parse_log_string_interop_event_v3 buffer = do
    string_ref_metadata ← or_fail (find_udt "StaticStringRef" udts) bail
    time ← read_i64 buffer 0
    level ← read_any 1 buffer 8
    target ← parse_pod_instance udts dependencies buffer depth string_ref_metadata 9
    (msg, cursor) ← parse_string from_utf16_lossy buffer (9 + string_ref_metadata.size)
    ok (
        member "time" (i64 time) (
          member "level" (u8 level)
            (member "target" target (member "msg" (string msg) no_members))))

  module _ (buffer : List ℕ) where
    unfoldable pub interop_event_members : UserDefinedType → ℕ → ℕ → Result Members
    interop_event_members stringid_metadata offset object_size = do
      time ← read_i64 buffer offset
      let level_offset = offset + 8
      level ← read_any 4 buffer level_offset
      let target_offset = level_offset + 4
      target ← parse_pod_instance udts dependencies buffer depth stringid_metadata target_offset
      let message_offset = target_offset + stringid_metadata.size
      msg ←
          read_dyn_string buffer message_offset
            (some (sub_as_u32 object_size (message_offset - offset)))
      ok (
          member "time" (i64 time) (
            member "level" (u32 level)
              (member "target" target (member "msg" (string msg) no_members))))

    unfoldable pub parse_log_string_interop_event : ℕ → ℕ → Result Members
    parse_log_string_interop_event offset object_size = elim (find_udt "StringId" udts) [
      | none ↦ ok no_members
      | some stringid_metadata ↦ interop_event_members stringid_metadata offset object_size
    ]

    unfoldable pub custom_members : UserDefinedType → ℕ → ℕ → Result Members
    custom_members udt offset object_size =
        if udt.name ==ₛ "LogStringEvent"
        then parse_log_string_event dependencies offset object_size buffer
        else if udt.name ==ₛ "LogStringInteropEventV2"
        then parse_log_string_interop_event offset object_size
        else if udt.name ==ₛ "LogStringInteropEventV3"
        then (do
          object_buffer ← or_fail (window buffer offset object_size) panic
          members_or_none (parse_log_string_interop_event_v3 object_buffer))
        else ok no_members

    unfoldable pub parse_custom_instance : UserDefinedType → ℕ → ℕ → Result Value
    parse_custom_instance udt offset object_size = do
      ms ← custom_members udt offset object_size
      ok (object (object_of udt.name ms))
