-- ===== src/Analytics/Time.antt =====
-- rust/analytics/src/time.rs: ticks of the process clock to nanoseconds. Floats are abstract: the
-- model takes their type and the operations that the code calls.
use micromegas.Prelude.{ℤ, pos, add_i64, sub_i64}

pub record F64 : Type 1 where
  pub Float : Type 0
  pub of_i64 : ℤ → Float
  pub add : Float → Float → Float
  pub mul : Float → Float → Float
  pub div : Float → Float → Float
  pub round : Float → Float
  -- `as i64`
  pub to_i64 : Float → ℤ

module _ (f : F64) where
  open f use {Float, of_i64, add, mul, div, round, to_i64}

  abbrev nanos_per_sec : Float
  nanos_per_sec = of_i64 (pos 1_000_000_000)

  pub record ConvertTicks : Type 0 where
    pub tick_offset : ℤ
    pub process_start_ns : ℤ
    pub frequency : ℤ
    pub inv_tsc_frequency_ms : Float
    pub inv_tsc_frequency_ns : Float

  unfoldable pub get_tsc_frequency_inverse_ms : ℤ → Float
  get_tsc_frequency_inverse_ms tsc_frequency = div (of_i64 (pos 1000)) (of_i64 tsc_frequency)

  unfoldable pub get_tsc_frequency_inverse_ns : ℤ → Float
  get_tsc_frequency_inverse_ns tsc_frequency = div nanos_per_sec (of_i64 tsc_frequency)

  unfoldable pub from_meta_data : ℤ → ℤ → ℤ → ConvertTicks
  from_meta_data start_ticks process_start_ns frequency = record {
    tick_offset = start_ticks;
    process_start_ns = process_start_ns;
    frequency = frequency;
    inv_tsc_frequency_ms = get_tsc_frequency_inverse_ms frequency;
    inv_tsc_frequency_ns = get_tsc_frequency_inverse_ns frequency;
  }

  unfoldable pub get_time : ConvertTicks → ℤ → Float
  get_time c ts = mul (of_i64 (sub_i64 ts c.tick_offset)) c.inv_tsc_frequency_ms

  -- `delta` as its whole seconds and the nanoseconds behind them
  unfoldable pub to_ticks : ConvertTicks → ℤ → ℤ → ℤ
  to_ticks c num_seconds subsec_nanos =
      let seconds = add (of_i64 num_seconds) (div (of_i64 subsec_nanos) nanos_per_sec) in
      to_i64 (round (mul seconds (of_i64 c.frequency)))

  unfoldable pub ticks_to_nanoseconds : ConvertTicks → ℤ → ℤ
  ticks_to_nanoseconds c ticks =
      let delta = of_i64 (sub_i64 ticks c.tick_offset) in
      add_i64 c.process_start_ns (to_i64 (round (mul delta c.inv_tsc_frequency_ns)))
