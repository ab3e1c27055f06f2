-- ===== src/Sink/Tests.antt =====
-- A composite of two sinks, and the theorems on it at concrete inputs.
use micromegas.Prelude.{
  ℕ, ◌≡◌, refl, ◌⊎◌, true, false, not, ◌==◌, List, [], ◌∷◌, none, some, All, arith, length,
}
use micromegas.Levels.Level.{Level}
use micromegas.Levels.LevelFilter
use micromegas.Levels.LevelFilter.{LevelFilter}
use micromegas.Tracing.LogFilter.{level_filter}
use micromegas.Sink.Composite.{
  EventSink, TargetFilters, CompositeSink, Metadata, sort_by_key, insert_filter, new, starts_with,
  find_max_match, by_state, target_max_level, any_takes, on_log_enabled, on_log,
}
use micromegas.Sink.Composite.Cache.{ask, ask-find_max_match}
use micromegas.Sink.Composite.Targets.{Any, NotLonger, IsNamed, find_max_match-sort_by_key}
use micromegas.Sink.Composite.Delivery.{IsTaken, on_log_enabled-on_log, new-on_log_enabled}

abbrev sinks : List (LevelFilter × EventSink)
sinks =
    (LevelFilter.info, record { id = 0; on_log_enabled = λ m. true })
    ∷ (LevelFilter.error, record { id = 1; on_log_enabled = λ m. true })
    ∷ []

-- Levels for the targets "a" and "ab".
abbrev filters : TargetFilters
filters = (97 ∷ [], LevelFilter.warn) ∷ (97 ∷ 98 ∷ [], LevelFilter.debug) ∷ []

abbrev metadata : Metadata
metadata = record { level = Level.debug; target = 97 ∷ 98 ∷ 99 ∷ [] }

abbrev composite : CompositeSink
composite = (new sinks filters none).0

filters-IsNamed : All IsNamed filters
filters-IsNamed = ((omega arith, omega arith), ((omega arith, omega arith), tt))

ask-find_max_match_example :
    All
      (λ answer. answer ≡ find_max_match metadata.target composite.target_level_filters)
      (ask 3 composite metadata 15)
ask-find_max_match_example = ask-find_max_match 3 composite metadata 15 refl

find_max_match-sort_by_key_example :
    ((find_max_match metadata.target (sort_by_key filters) ≡ none)
      × All (λ x. starts_with metadata.target x.0 ≡ false) filters)
    ⊎ ((l : LevelFilter) × (name : List ℕ) × (find_max_match metadata.target (sort_by_key filters)
          ≡ some l)
        × Any (λ x. x ≡ (name, l)) filters
        × (starts_with metadata.target name ≡ true)
        × All (NotLonger metadata.target name) filters)
find_max_match-sort_by_key_example =
    find_max_match-sort_by_key metadata.target filters filters-IsNamed

on_log_enabled-on_log_example :
    ((on_log_enabled composite metadata 15).0 ≡ not (length (on_log composite metadata 15).0 == 0))
    × ((on_log_enabled composite metadata 15).1 ≡ (on_log composite metadata 15).1)
    × All
        (IsTaken metadata (target_max_level composite metadata 15).0 composite.sinks)
        (on_log composite metadata 15).0
on_log_enabled-on_log_example = on_log_enabled-on_log composite metadata 15

metadata-enabled : (on_log_enabled (new sinks filters none).0 metadata 15).0 ≡ true
unfolding on_log_enabled new target_max_level by_state level_filter find_max_match starts_with
    sort_by_key insert_filter any_takes
metadata-enabled = refl

new-on_log_enabled_example :
    LevelFilter.level_comparisons.le metadata.level (new sinks filters none).1 ≡ true
new-on_log_enabled_example = new-on_log_enabled sinks filters metadata 15 refl metadata-enabled

-- A target with no name comes before every longer one, which it hides.
empty_name_first :
    find_max_match metadata.target (sort_by_key (([], LevelFilter.error) ∷ filters))
    ≡ some LevelFilter.error
unfolding find_max_match starts_with sort_by_key insert_filter
empty_name_first = refl
