-- ===== src/Sink/Composite/Delivery.antt =====
-- Which logs rust/telemetry-sink/src/composite_event_sink.rs hands on.
use micromegas.Prelude.{
  ℕ, ◌≤◌, ◌≡◌, refl, ◌⊎◌, inl, inr, ◌&&◌, Bool, true, not, ◌==◌, List, [], ◌∷◌, Option, none, some,
  All, leb, ltb, arith, length, Bool-cases,
}
use micromegas.Levels.Level
use micromegas.Levels.LevelFilter
use micromegas.Levels.LevelFilter.{LevelFilter}
use micromegas.Tracing.LogFilter.{generation_of}
use micromegas.Sink.Composite.{
  EventSink, TargetFilters, CompositeSink, Metadata, max_filter, max_target, max_sink, sort_by_key,
  new, starts_with, find_max_match, target_max_level, unwrap_or, any_takes, on_log_enabled,
  receivers, on_log,
}
use micromegas.Sink.Composite.Cache.{by_state-IsCached}
use micromegas.Sink.Composite.Targets.{All-map, All-sort_by_key}

-- A sink of the list has the number and takes the log: the log's level is within that of its target,
-- or within that of the sink where the target has none, and the sink itself enables it.
abbrev pub IsTaken : Metadata → Option LevelFilter → List (LevelFilter × EventSink) → ℕ → Type 0
IsTaken metadata target_max [] id = ⊥
IsTaken metadata target_max ((l, sink) ∷ sinks) id =
    ((sink.id ≡ id)
      × (Level.as_u32 metadata.level ≤ LevelFilter.as_u32 (unwrap_or target_max l))
      × (sink.on_log_enabled metadata ≡ true))
    ⊎ IsTaken metadata target_max sinks id

IsTaken-later :
    (metadata : Metadata) (target_max : Option LevelFilter) (first : LevelFilter × EventSink)
    (sinks : List (LevelFilter × EventSink)) (ids : List ℕ)
    → All (IsTaken metadata target_max sinks) ids
    → All (IsTaken metadata target_max (first ∷ sinks)) ids
IsTaken-later metadata target_max first sinks [] h = tt
IsTaken-later metadata target_max first sinks (id ∷ ids) (h, hs) =
    (inr h, IsTaken-later metadata target_max first sinks ids hs)

within : (a b : ℕ) (enabled : Bool) → leb a b && enabled ≡ true → (a ≤ b) × (enabled ≡ true)
within a b enabled h = ground arith

any_takes-receivers :
    (metadata : Metadata) (target_max : Option LevelFilter) (sinks : List (LevelFilter × EventSink))
    → (any_takes metadata target_max sinks
        ≡ not (length (receivers metadata target_max sinks) == 0))
      × All (IsTaken metadata target_max sinks) (receivers metadata target_max sinks)
unfolding any_takes receivers
any_takes-receivers metadata target_max [] = (ground arith, tt)
any_takes-receivers metadata target_max ((l, sink) ∷ sinks) =
    let a = Level.as_u32 metadata.level in
    let b = LevelFilter.as_u32 (unwrap_or target_max l) in
    let (same, all) = any_takes-receivers metadata target_max sinks in
    let later =
      IsTaken-later metadata target_max (l, sink) sinks (receivers metadata target_max sinks) all in
    elim (Bool-cases (leb a b && sink.on_log_enabled metadata)) [
      | inl taken ↦
          let (low, enabled) = within a b (sink.on_log_enabled metadata) taken in
          rw taken (ground arith, (inl (refl, low, enabled), later))
      | inr other ↦ rw other (same, later)
    ]

-- `on_log_enabled` answers true exactly where `on_log` calls some sink, both leave the same filter in
-- the metadata, and each sink that `on_log` calls takes the log: the log's level is within that of its
-- target, or that of the sink where the target has none, and the sink enables it.
pub on_log_enabled-on_log :
    (s : CompositeSink) (metadata : Metadata) (word : ℕ)
    → ((on_log_enabled s metadata word).0 ≡ not (length (on_log s metadata word).0 == 0))
      × ((on_log_enabled s metadata word).1 ≡ (on_log s metadata word).1)
      × All
          (IsTaken metadata (target_max_level s metadata word).0 s.sinks)
          (on_log s metadata word).0
unfolding on_log_enabled on_log
on_log_enabled-on_log s metadata word =
    let (same, all) = any_takes-receivers metadata (target_max_level s metadata word).0 s.sinks in
    (same, refl, all)

abbrev code : LevelFilter → ℕ
code = LevelFilter.as_u32

max_filter-bounds :
    (a b : LevelFilter) → (code a ≤ code (max_filter a b)) × (code b ≤ code (max_filter a b))
max_filter-bounds a b = elim (Bool-cases (ltb (code b) (code a))) [
  | inl lt ↦ rw lt (omega arith, ground arith)
  | inr ge ↦ rw ge (ground arith, omega arith)
]

max_target-bounds :
    (m : LevelFilter) (filters : TargetFilters)
    → (code m ≤ code (max_target m filters))
      × All (λ x. code x.1 ≤ code (max_target m filters)) filters
unfolding max_target
max_target-bounds m [] = (omega arith, tt)
max_target-bounds m ((name, l) ∷ filters) =
    let (start, rest) = max_target-bounds (max_filter m l) filters in
    let (left, right) = max_filter-bounds m l in
    (omega (arith, left, start), (omega (arith, right, start), rest))

max_sink-bounds :
    (m : LevelFilter) (sinks : List (LevelFilter × EventSink))
    → (code m ≤ code (max_sink m sinks)) × All (λ x. code x.0 ≤ code (max_sink m sinks)) sinks
unfolding max_sink
max_sink-bounds m [] = (omega arith, tt)
max_sink-bounds m ((l, sink) ∷ sinks) =
    let (start, rest) = max_sink-bounds (max_filter m l) sinks in
    let (left, right) = max_filter-bounds m l in
    (omega (arith, left, start), (omega (arith, right, start), rest))

abbrev Below : LevelFilter → Option LevelFilter → Type 0
Below m none = Unit {0}
Below m (some l) = code l ≤ code m

find_max_match-Below :
    (m : LevelFilter) (target : List ℕ) (filters : TargetFilters)
    → All (λ x. code x.1 ≤ code m) filters
    → Below m (find_max_match target filters)
unfolding find_max_match
find_max_match-Below m target [] h = tt
find_max_match-Below m target ((t, l) ∷ filters) (h, hs) =
    elim (Bool-cases (starts_with target t)) [
      | inl starts ↦ rw starts h
      | inr other ↦ rw other (find_max_match-Below m target filters hs)
    ]

unwrap_or-Below :
    (m l : LevelFilter) (target_max : Option LevelFilter)
    → Below m target_max
    → code l ≤ code m
    → code (unwrap_or target_max l) ≤ code m
unwrap_or-Below m l none below h = h
unwrap_or-Below m l (some k) below h = below

any_takes-level :
    (m : LevelFilter) (metadata : Metadata) (target_max : Option LevelFilter)
    (sinks : List (LevelFilter × EventSink))
    → Below m target_max
    → All (λ x. code x.0 ≤ code m) sinks
    → any_takes metadata target_max sinks ≡ true
    → LevelFilter.level_comparisons.le metadata.level m ≡ true
unfolding any_takes
any_takes-level m metadata target_max [] below hs any = cc
any_takes-level m metadata target_max ((l, sink) ∷ sinks) below (h, hs) any =
    let bound = unwrap_or-Below m l target_max below h in
    elim (Bool-cases (leb (Level.as_u32 metadata.level) (code (unwrap_or target_max l)))) [
      | inl le ↦ ground arith
      | inr gt ↦ any_takes-level m metadata target_max sinks below hs (rw gt at any)
    ]

-- The maximum level that the sink sets, where none is forced on it, hides no log: a log that some
-- sink takes, at the first time that its metadata is asked, has a level within the maximum.
pub new-on_log_enabled :
    (sinks : List (LevelFilter × EventSink)) (filters : TargetFilters) (metadata : Metadata)
    (word : ℕ)
    → generation_of word ≡ 0
    → (on_log_enabled (new sinks filters none).0 metadata word).0 ≡ true
    → LevelFilter.level_comparisons.le metadata.level (new sinks filters none).1 ≡ true
unfolding new on_log_enabled target_max_level
new-on_log_enabled sinks filters metadata word fresh enabled =
    let m = max_sink (max_target LevelFilter.off filters) sinks in
    let (start, in_sinks) = max_sink-bounds (max_target LevelFilter.off filters) sinks in
    let (zero_le, in_filters) = max_target-bounds LevelFilter.off filters in
    let found = find_max_match metadata.target (sort_by_key filters) in
    let answer = (by_state-IsCached found word (inl fresh)).0 in
    let below : Below m found = find_max_match-Below m metadata.target (sort_by_key filters) (
      All-sort_by_key (λ x. code x.1 ≤ code m) filters
        (All-map (λ x. code x.1 ≤ code (max_target LevelFilter.off filters))
          (λ x. code x.1 ≤ code m) filters (λ x h. omega (arith, h, start)) in_filters)) in
    any_takes-level m metadata found sinks below in_sinks (rw answer at enabled)
