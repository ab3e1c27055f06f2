-- ===== src/Analytics/LogEntry.antt =====
-- rust/analytics/src/log_entry.rs: the log entries in a block.
pub mod Queued
pub mod Entries
mod Tests
use micromegas.Prelude.{
  ℕ, ◌-◌, ◌^◌, ◌||◌, ℤ, pos, negsuc, Bool, true, List, Option, none, some, Result, ok, ◌>>=◌, ltb,
  if◌then◌else◌,
}
use text.Mathlib.Text.{◌==◌ as ◌==ₛ◌}
use micromegas.Transit.Value.{
  Value, object, type_name, get, get_i64, get_u32, get_string, get_object,
}
use micromegas.Analytics.Time.{F64, ConvertTicks, ticks_to_nanoseconds}
use micromegas.Analytics.Block.{Codec, StreamInfo, BlockPayload, parse_block}

pub record LogEntry : Type 0 where
  pub time : ℤ
  pub level : ℤ
  pub target : List ℕ
  pub msg : List ℕ

-- `level as i32`
abbrev pub as_i32 : ℕ → ℤ
as_i32 n = if ltb n (2 ^ 31) then pos n else negsuc (2 ^ 32 - n - 1)

module _ (f : F64) (convert_ticks : ConvertTicks f) where
  unfoldable pub log_entry_from_value : Value → Result (Option LogEntry)
  log_entry_from_value (object obj) =
      if type_name obj ==ₛ "LogStaticStrEvent"
      then (do
        ticks ← get get_i64 "time" obj
        desc ← get get_object "desc" obj
        level ← get get_u32 "level" desc
        target ← get get_string "target" desc
        msg ← get get_string "fmt_str" desc
        ok (
            some (record {
              time = ticks_to_nanoseconds f convert_ticks ticks;
              level = as_i32 level;
              target = target;
              msg = msg;
            })))
      else if type_name obj ==ₛ "LogStringEvent"
      then (do
        ticks ← get get_i64 "time" obj
        desc ← get get_object "desc" obj
        level ← get get_u32 "level" desc
        target ← get get_string "target" desc
        msg ← get get_string "msg" obj
        ok (
            some (record {
              time = ticks_to_nanoseconds f convert_ticks ticks;
              level = as_i32 level;
              target = target;
              msg = msg;
            })))
      else if (type_name obj ==ₛ "LogStaticStrInteropEvent")
          || (type_name obj ==ₛ "LogStringInteropEventV2")
          || (type_name obj ==ₛ "LogStringInteropEventV3")
      then (do
        ticks ← get get_i64 "time" obj
        level ← get get_u32 "level" obj
        target ← get get_string "target" obj
        msg ← get get_string "msg" obj
        ok (
            some (record {
              time = ticks_to_nanoseconds f convert_ticks ticks;
              level = as_i32 level;
              target = target;
              msg = msg;
            })))
      else ok none
  log_entry_from_value _ = ok none

  module _ {S : Type 0} (fun : LogEntry → S → Result (Bool × S)) where
    -- The closure that is handed to `parse_block`.
    unfoldable pub on_log_value : Value → S → Result (Bool × S)
    on_log_value val s = do
      found ← log_entry_from_value val
      elim found [ none ↦ ok (true, s) | some log_entry ↦ fun log_entry s ]

    -- `payload` is what was fetched from the blob storage.
    unfoldable pub for_each_log_entry_in_block :
        Codec → Result BlockPayload → StreamInfo → S → Result S
    for_each_log_entry_in_block c fetched stream s = do
      payload ← fetched
      (continue, s') ← parse_block c stream payload on_log_value s
      ok s'
