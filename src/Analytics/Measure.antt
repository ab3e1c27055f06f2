-- ===== src/Analytics/Measure.antt =====
-- rust/analytics/src/measure.rs: the measures in a block.
use micromegas.Prelude.{
  ℕ, ℤ, Bool, true, List, Option, none, some, Result, ok, ◌>>=◌, if◌then◌else◌,
}
use text.Mathlib.Text.{◌==◌ as ◌==ₛ◌}
use micromegas.Transit.Value.{
  Value, object, type_name, get, get_i64, get_u64, get_f64, get_string, get_object,
}
use micromegas.Analytics.Time.{F64, ConvertTicks, ticks_to_nanoseconds}
use micromegas.Analytics.Block.{Codec, StreamInfo, BlockPayload, parse_block}

-- The `f64` of 64 bits and `u64 as f64` are arguments.
module _ (f : F64) (of_bits of_u64 : ℕ → f.Float) where
  pub record Measure : Type 0 where
    pub time : ℤ
    pub target : List ℕ
    pub name : List ℕ
    pub unit : List ℕ
    pub value : f.Float

  module _ (convert_ticks : ConvertTicks f) where
    unfoldable pub measure_from_value : Value → Result (Option Measure)
    measure_from_value (object obj) =
        if type_name obj ==ₛ "FloatMetricEvent"
        then (do
          ticks ← get get_i64 "time" obj
          value ← get get_f64 "value" obj
          desc ← get get_object "desc" obj
          target ← get get_string "target" desc
          name ← get get_string "name" desc
          unit ← get get_string "unit" desc
          ok (
              some (record {
                time = ticks_to_nanoseconds f convert_ticks ticks;
                target = target;
                name = name;
                unit = unit;
                value = of_bits value;
              })))
        else if type_name obj ==ₛ "IntegerMetricEvent"
        then (do
          ticks ← get get_i64 "time" obj
          value ← get get_u64 "value" obj
          desc ← get get_object "desc" obj
          target ← get get_string "target" desc
          name ← get get_string "name" desc
          unit ← get get_string "unit" desc
          ok (
              some (record {
                time = ticks_to_nanoseconds f convert_ticks ticks;
                target = target;
                name = name;
                unit = unit;
                value = of_u64 value;
              })))
        else ok none
    measure_from_value _ = ok none

    module _ {S : Type 0} (fun : Measure → S → Result (Bool × S)) where
      -- The closure that is handed to `parse_block`.
      unfoldable pub on_metric_value : Value → S → Result (Bool × S)
      on_metric_value val s = do
        found ← measure_from_value val
        elim found [ none ↦ ok (true, s) | some measure ↦ fun measure s ]

      -- `fetched` is what the blob storage returned.
      unfoldable pub for_each_measure_in_block :
          Codec → Result BlockPayload → StreamInfo → S → Result (Bool × S)
      for_each_measure_in_block c fetched stream s = do
        payload ← fetched
        parse_block c stream payload on_metric_value s
