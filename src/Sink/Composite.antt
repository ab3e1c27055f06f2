-- ===== src/Sink/Composite.antt =====
-- rust/telemetry-sink/src/composite_event_sink.rs: several sinks, each with a level, and levels for the
-- targets of logs. A sink is known by its number; what it answers to `on_log_enabled` is part of it.
pub mod Cache
pub mod Targets
pub mod Delivery
use micromegas.Prelude.{
  ℕ, zero, suc, ◌+◌, ◌-◌, ◌%◌, ◌^◌, Bool, true, false, ◌&&◌, ◌||◌, List, [], ◌∷◌, Option, none,
  some, leb, ◌==◌, if◌then◌else◌, length,
}
use micromegas.Levels.Level.{Level}
use micromegas.Levels.LevelFilter
use micromegas.Levels.LevelFilter.{LevelFilter}
use micromegas.Tracing.LogFilter.{
  FilterState, outdated, not_set, set, level_filter, set_level_filter,
}

-- The parts of `LogMetadata` that do not change.
pub record Metadata : Type 0 where
  pub level : Level
  pub target : List ℕ

pub record EventSink : Type 0 where
  pub id : ℕ
  pub on_log_enabled : Metadata → Bool

abbrev pub TargetFilters : Type 0
TargetFilters = List (List ℕ × LevelFilter)

pub record CompositeSink : Type 0 where
  pub sinks : List (LevelFilter × EventSink)
  pub target_level_filters : TargetFilters

-- `Ord::max`
abbrev pub max_filter : LevelFilter → LevelFilter → LevelFilter
max_filter a b = if LevelFilter.comparisons.lt b a then a else b

unfoldable pub max_target : LevelFilter → TargetFilters → LevelFilter
max_target max_level [] = max_level
max_target max_level ((name, l) ∷ filters) = max_target (max_filter max_level l) filters

unfoldable pub max_sink : LevelFilter → List (LevelFilter × EventSink) → LevelFilter
max_sink max_level [] = max_level
max_sink max_level ((l, sink) ∷ sinks) = max_sink (max_filter max_level l) sinks

-- `name.len().wrapping_neg()`
abbrev pub sort_key : List ℕ × LevelFilter → ℕ
sort_key (name, l) = (2 ^ 64 - length name % 2 ^ 64) % 2 ^ 64

-- `sort_by_key`, which keeps the order of equal keys.
unfoldable pub insert_filter : List ℕ × LevelFilter → TargetFilters → TargetFilters
insert_filter x [] = x ∷ []
insert_filter x (y ∷ ys) =
    let later = insert_filter x ys in
    if leb (sort_key x) (sort_key y) then x ∷ y ∷ ys else y ∷ later

unfoldable pub sort_by_key : TargetFilters → TargetFilters
sort_by_key [] = []
sort_by_key (x ∷ xs) = insert_filter x (sort_by_key xs)

abbrev new_max_level :
    List (LevelFilter × EventSink) → TargetFilters → Option LevelFilter → LevelFilter
new_max_level sinks filters none = max_sink (max_target LevelFilter.off filters) sinks
new_max_level sinks filters (some max_level) = max_level

-- `CompositeSink::new`: the sink, and the maximum level that it sets.
unfoldable pub new :
    List (LevelFilter × EventSink)
    → TargetFilters
    → Option LevelFilter
    → CompositeSink × LevelFilter
new sinks filters max_level_override = (
  record { sinks = sinks; target_level_filters = sort_by_key filters },
  new_max_level sinks filters max_level_override,
)

-- `str::starts_with`
unfoldable pub starts_with : List ℕ → List ℕ → Bool
starts_with target [] = true
starts_with [] (p ∷ ps) = false
starts_with (c ∷ cs) (p ∷ ps) = c == p && starts_with cs ps

unfoldable pub find_max_match : List ℕ → TargetFilters → Option LevelFilter
unfolding starts_with
find_max_match target [] = none
find_max_match target ((t, l) ∷ filters) =
    let later = find_max_match target filters in if starts_with target t then some l else later

-- `target_max_level` by the state of the metadata's filter; the second result is the atomic behind it.
unfoldable pub by_state : FilterState → Option LevelFilter → ℕ → Option LevelFilter × ℕ
by_state outdated found word = (found, set_level_filter 1 found word)
by_state not_set found word = (none, word)
by_state (set l) found word = (some l, word)

unfoldable pub target_max_level : CompositeSink → Metadata → ℕ → Option LevelFilter × ℕ
unfolding by_state
target_max_level s metadata word =
    by_state (level_filter 1 word) (find_max_match metadata.target s.target_level_filters) word

abbrev pub unwrap_or : Option LevelFilter → LevelFilter → LevelFilter
unwrap_or none max_level = max_level
unwrap_or (some l) max_level = l

-- `on_log_enabled` and `on_log` write the condition on a sink out, each for itself.
unfoldable pub any_takes : Metadata → Option LevelFilter → List (LevelFilter × EventSink) → Bool
any_takes metadata target_max [] = false
any_takes metadata target_max ((max_level, sink) ∷ sinks) =
    LevelFilter.level_comparisons.le metadata.level (unwrap_or target_max max_level)
      && sink.on_log_enabled metadata
    || any_takes metadata target_max sinks

unfoldable pub on_log_enabled : CompositeSink → Metadata → ℕ → Bool × ℕ
on_log_enabled s metadata word =
    let (target_max, word') = target_max_level s metadata word in
    (any_takes metadata target_max s.sinks, word')

-- The sinks whose `on_log` is called, in their order.
unfoldable pub receivers : Metadata → Option LevelFilter → List (LevelFilter × EventSink) → List ℕ
receivers metadata target_max [] = []
receivers metadata target_max ((max_level, sink) ∷ sinks) =
    let later = receivers metadata target_max sinks in
    if LevelFilter.level_comparisons.le metadata.level (unwrap_or target_max max_level)
      && sink.on_log_enabled metadata
    then sink.id ∷ later
    else later

unfoldable pub on_log : CompositeSink → Metadata → ℕ → List ℕ × ℕ
on_log s metadata word =
    let (target_max, word') = target_max_level s metadata word in
    (receivers metadata target_max s.sinks, word')
