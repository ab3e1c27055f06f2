-- ===== src/Tracing/FlushMonitor.antt =====
-- rust/tracing/src/flush_monitor.rs: when the streams are flushed. The clock, in seconds, comes with a
-- call; whether there is a sink and whether it is busy does, too.
mod Tests
use micromegas.Prelude.{
  ℕ, ◌+◌, ◌-◌, ◌≤◌, ◌<◌, ◌^◌, ◌≡◌, refl, ap, ◌∙◌, ℤ, pos, sub_i64, i64_of_bits, bits_of_i64, ltb_ℤ,
  not, Bool, true, false, List, [], ◌∷◌, Option, none, some, if◌then◌else◌, All, Bool-cases, inl,
  inr, leb, leb→le, arith,
}

pub record FlushMonitor : Type 0 where
  pub last_flush : ℤ
  pub flush_period_seconds : ℤ

abbrev pub new_monitor : ℤ → ℤ → FlushMonitor
new_monitor now flush_period_seconds = record {
  last_flush = now;
  flush_period_seconds = flush_period_seconds;
}

-- `default`: every minute
abbrev pub default_monitor : ℤ → FlushMonitor
default_monitor now = new_monitor now (pos 60)

unfoldable pub time_to_flush_seconds : ℤ → FlushMonitor → ℤ
time_to_flush_seconds now m = sub_i64 m.flush_period_seconds (sub_i64 now m.last_flush)

-- Whether a sink is there that is not busy, given `get_sink` and its `is_busy`.
abbrev can_flush : Option Bool → Bool
can_flush none = false
can_flush (some is_busy) = not is_busy

-- `tick`, and whether it flushes the streams. The clock is read once more for `last_flush`.
unfoldable pub tick : ℤ → ℤ → Option Bool → FlushMonitor → FlushMonitor × Bool
tick now later sink m =
    if ltb_ℤ (pos 0) (time_to_flush_seconds now m)
    then (m, false)
    else if can_flush sink
    then (record m { last_flush = later }, true)
    else (m, false)

-- A tick at a time: the two readings of the clock, and the sink.
pub record Tick : Type 0 where
  pub now : ℕ
  pub later : ℕ
  pub sink : Option Bool

-- The times of the flushes of a sequence of ticks.
unfoldable pub flushes : List Tick → FlushMonitor → List ℕ
flushes [] m = []
flushes (k ∷ ks) m =
    let rest = flushes ks (tick (pos k.now) (pos k.later) k.sink m).0 in
    if (tick (pos k.now) (pos k.later) k.sink m).1 then k.later ∷ rest else rest

-- A clock that does not go back, from `last` on, and does not overflow.
abbrev pub IsClock : ℕ → List Tick → Type 0
IsClock last [] = Unit {0}
IsClock last (k ∷ ks) =
    (last ≤ k.now) × ((k.now ≤ k.later) × ((k.later < 2 ^ 62) × IsClock k.later ks))

-- Each time is at least a period after the one before.
abbrev pub AreSpaced : ℕ → ℕ → List ℕ → Type 0
AreSpaced period last [] = Unit {0}
AreSpaced period last (t ∷ ts) = (last + period ≤ t) × AreSpaced period t ts

sub_i64-pos : (a b : ℕ) → b ≤ a → a < 2 ^ 62 → sub_i64 (pos a) (pos b) ≡ pos (a - b)
unfolding sub_i64 i64_of_bits bits_of_i64
sub_i64-pos a b h k = ground arith

due-pos :
    (p e : ℕ) → p < 2 ^ 62 → e < 2 ^ 62 → ltb_ℤ (pos 0) (sub_i64 (pos p) (pos e)) ≡ false → p ≤ e
unfolding sub_i64 i64_of_bits bits_of_i64
due-pos p e h k l = ground arith

IsClock-earlier : (a b : ℕ) (ks : List Tick) → a ≤ b → IsClock b ks → IsClock a ks
IsClock-earlier a b [] h c = tt
IsClock-earlier a b (k ∷ ks) h (first, rest) = (omega (arith, h, first), rest)

module _ (period : ℕ) (period_small : period < 2 ^ 62) where
  monitor : ℕ → FlushMonitor
  monitor last = new_monitor (pos last) (pos period)

  is_due :
      (last now : ℕ)
      → last ≤ now
      → now < 2 ^ 62
      → ltb_ℤ (pos 0) (time_to_flush_seconds (pos now) (monitor last)) ≡ false
      → last + period ≤ now
  unfolding time_to_flush_seconds monitor
  is_due last now h small late =
      let apart : now - last < 2 ^ 62 = omega (arith, small) in
      omega (
        arith,
        h,
        due-pos period (now - last) period_small apart (rw (sub_i64-pos now last h small) at late),
      )

  -- However often the monitor is ticked, on a clock that does not go back and with any sink, two
  -- flushes are at least the period apart, and the first is that long after the monitor was made.
  -- The clock and the period are below 2^62 seconds.
  pub flushes-AreSpaced :
      (ks : List Tick) (last : ℕ)
      → IsClock last ks
      → AreSpaced period last (flushes ks (new_monitor (pos last) (pos period)))
  unfolding flushes tick monitor
  flushes-AreSpaced [] last c = tt
  flushes-AreSpaced (k ∷ ks) last (first, (second, (small, c))) =
      let later =
        flushes-AreSpaced ks last
          (IsClock-earlier last k.later ks (omega (arith, first, second)) c) in
      elim (Bool-cases (ltb_ℤ (pos 0) (time_to_flush_seconds (pos k.now) (monitor last)))) [
        | inl early ↦ rw early later
        | inr due ↦ elim (Bool-cases (can_flush k.sink)) [
          | inr busy ↦ rw (due, busy) later
          | inl free ↦
              let apart = is_due last k.now first (omega (arith, second, small)) due in
              rw (due, free) (omega (arith, apart, second), flushes-AreSpaced ks k.later c)
        ]
      ]
