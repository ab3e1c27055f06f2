-- ===== src/Tracing/Dependencies.antt =====
-- The dependencies of the log events in a block, `extract` of rust/tracing/src/logs/block.rs. A
-- reference is an address, and the static metadata at an address is an argument. `deps` is the queue
-- with the value that was pushed last in front.
pub mod Recorded
pub mod Queued
pub mod Parsed
pub mod Laws
pub mod Resolved
mod Tests
use micromegas.Prelude.{ℕ, Bool, true, false, ◌||◌, List, [], ◌∷◌, ◌==◌, if◌then◌else◌}
use micromegas.Levels.Level
use micromegas.Levels.Level.{Level}
use micromegas.Tracing.LogEvents.{
  StringId, LogMsgQueueAny, log_static_str_event, log_string_event, log_static_str_interop_event,
  log_string_interop_event,
}

-- `StaticString`, and a `&'static str`
pub record StaticString : Type 0 where
  pub len : ℕ
  pub ptr : ℕ

pub record LogMetadata : Type 0 where
  pub level : Level
  pub fmt_str : StaticString
  pub target : StaticString
  pub module_path : StaticString
  pub file : StaticString
  pub line : ℕ

pub record LogMetadataRecord : Type 0 where
  pub id : ℕ
  pub fmt_str : ℕ
  pub target : ℕ
  pub module_path : ℕ
  pub file : ℕ
  pub line : ℕ
  pub level : ℕ

-- A value of `LogDepsQueue`
pub data LogDep : Type 0 where
  static_string : StaticString → LogDep
  log_metadata_record : LogMetadataRecord → LogDep

-- `HashSet::contains`
unfoldable pub contains : ℕ → List ℕ → Bool
contains i [] = false
contains i (j ∷ js) = i == j || contains i js

pub record Deps : Type 0 where
  pub recorded_deps : List ℕ
  pub deps : List LogDep

-- `if recorded_deps.insert(s.ptr as u64) { deps.push(s); }`
unfoldable pub add_string : StaticString → Deps → Deps
unfolding contains
add_string s d =
    if contains s.ptr d.recorded_deps
    then d
    else record { recorded_deps = s.ptr ∷ d.recorded_deps; deps = static_string s ∷ d.deps }

abbrev pub record_of : ℕ → LogMetadata → LogMetadataRecord
record_of log_ptr m = record {
  id = log_ptr;
  fmt_str = m.fmt_str.ptr;
  target = m.target.ptr;
  module_path = m.module_path.ptr;
  file = m.file.ptr;
  line = m.line;
  level = Level.as_u32 m.level;
}

-- `StaticString::from(&StringId)`
abbrev pub of_string_id : StringId → StaticString
of_string_id s = record { len = s.len; ptr = s.ptr }

-- The strings of a metadata that is recorded for the first time.
unfoldable pub add_strings : LogMetadata → Deps → Deps
add_strings m d =
    add_string m.file (add_string m.module_path (add_string m.target (add_string m.fmt_str d)))

abbrev pub push_dep : LogDep → Deps → Deps
push_dep dep d = record d { deps = dep ∷ d.deps }

unfoldable pub record_log_event_dependencies : ℕ → LogMetadata → Deps → Deps
unfolding contains add_strings
record_log_event_dependencies log_ptr m d =
    if contains log_ptr d.recorded_deps
    then d
    else push_dep (log_metadata_record (record_of log_ptr m))
        (add_strings m (record d { recorded_deps = log_ptr ∷ d.recorded_deps }))

module _ (metadata_at : ℕ → LogMetadata) where
  -- One arm of the `match` in `extract`.
  unfoldable pub extract_event : LogMsgQueueAny → Deps → Deps
  unfolding record_log_event_dependencies add_string
  extract_event (log_static_str_event e) d =
      record_log_event_dependencies e.desc (metadata_at e.desc) d
  extract_event (log_string_event e) d = record_log_event_dependencies e.desc (metadata_at e.desc) d
  extract_event (log_static_str_interop_event e) d =
      add_string (of_string_id e.msg) (add_string (of_string_id e.target) d)
  extract_event (log_string_interop_event e) d = add_string (of_string_id e.target) d

  unfoldable pub extract_events : List LogMsgQueueAny → Deps → Deps
  extract_events [] d = d
  extract_events (e ∷ es) d = extract_events es (extract_event e d)

  -- `extract` over the events that the queue holds
  unfoldable pub extract : List LogMsgQueueAny → List LogDep
  unfolding extract_events
  extract events = (extract_events events (record { recorded_deps = []; deps = [] })).deps
