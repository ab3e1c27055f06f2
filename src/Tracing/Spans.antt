-- ===== src/Tracing/Spans.antt =====
-- The spans of rust/tracing/src/spans/events.rs and the dependencies that `extract` finds in a block
-- of them (rust/tracing/src/spans/block.rs). A reference is an address, and the static values at an
-- address are arguments.
pub mod Laws
pub mod Queue
mod Tests
use micromegas.Prelude.{ℕ, ℤ, List, [], ◌∷◌}
use micromegas.Levels.Verbosity
use micromegas.Levels.Verbosity.{Verbosity}
use micromegas.Tracing.LogEvents.{StringId}
use micromegas.Tracing.Dependencies.{StaticString, of_string_id}
use micromegas.Tracing.Recording.{Dep, Recording, nothing_recorded, add_text, describe, extract_all}

pub record SpanLocation : Type 0 where
  pub lod : Verbosity
  pub target : StaticString
  pub module_path : StaticString
  pub file : StaticString
  pub line : ℕ

pub record SpanLocationRecord : Type 0 where
  pub id : ℕ
  pub target : ℕ
  pub module_path : ℕ
  pub file : ℕ
  pub line : ℕ
  pub lod : ℕ

pub record SpanMetadata : Type 0 where
  pub name : StaticString
  pub location : SpanLocation

pub record SpanRecord : Type 0 where
  pub id : ℕ
  pub name : ℕ
  pub target : ℕ
  pub module_path : ℕ
  pub file : ℕ
  pub line : ℕ
  pub lod : ℕ

pub record ThreadSpanEvent : Type 0 where
  pub thread_span_desc : ℕ
  pub time : ℤ

pub record ThreadNamedSpanEvent : Type 0 where
  pub thread_span_location : ℕ
  pub name : StringId
  pub time : ℤ

pub record AsyncSpanEvent : Type 0 where
  pub span_desc : ℕ
  pub span_id : ℕ
  pub time : ℤ

pub record AsyncNamedSpanEvent : Type 0 where
  pub span_location : ℕ
  pub name : StringId
  pub span_id : ℕ
  pub time : ℤ

-- A value of `ThreadEventQueue`. The records of a begin and of its end have the same fields.
pub data ThreadEventQueueAny : Type 0 where
  begin_thread_span_event : ThreadSpanEvent → ThreadEventQueueAny
  end_thread_span_event : ThreadSpanEvent → ThreadEventQueueAny
  begin_thread_named_span_event : ThreadNamedSpanEvent → ThreadEventQueueAny
  end_thread_named_span_event : ThreadNamedSpanEvent → ThreadEventQueueAny
  begin_async_span_event : AsyncSpanEvent → ThreadEventQueueAny
  end_async_span_event : AsyncSpanEvent → ThreadEventQueueAny
  begin_async_named_span_event : AsyncNamedSpanEvent → ThreadEventQueueAny
  end_async_named_span_event : AsyncNamedSpanEvent → ThreadEventQueueAny

-- The records of `ThreadDepsQueue`
pub data ThreadRecord : Type 0 where
  span_record : SpanRecord → ThreadRecord
  span_location_record : SpanLocationRecord → ThreadRecord

abbrev pub span_record_of : ℕ → SpanMetadata → SpanRecord
span_record_of thread_span_ptr m = record {
  id = thread_span_ptr;
  name = m.name.ptr;
  target = m.location.target.ptr;
  module_path = m.location.module_path.ptr;
  file = m.location.file.ptr;
  line = m.location.line;
  lod = Verbosity.as_u32 m.location.lod;
}

abbrev pub location_record_of : ℕ → SpanLocation → SpanLocationRecord
location_record_of location_id l = record {
  id = location_id;
  target = l.target.ptr;
  module_path = l.module_path.ptr;
  file = l.file.ptr;
  line = l.line;
  lod = Verbosity.as_u32 l.lod;
}

-- The texts in the order in which they are pushed.
abbrev pub location_texts : SpanLocation → List StaticString
location_texts l = l.target ∷ l.module_path ∷ l.file ∷ []

abbrev pub span_texts : SpanMetadata → List StaticString
span_texts m = m.name ∷ location_texts m.location

unfoldable pub record_scope_event_dependencies :
    ℕ → SpanMetadata → Recording ThreadRecord → Recording ThreadRecord
record_scope_event_dependencies thread_span_ptr m d =
    describe thread_span_ptr (span_texts m) (span_record (span_record_of thread_span_ptr m)) d

unfoldable pub record_named_scope_event_dependencies :
    ℕ → SpanLocation → StringId → Recording ThreadRecord → Recording ThreadRecord
record_named_scope_event_dependencies location_id l name d = add_text (of_string_id name) (
    describe location_id (location_texts l)
      (span_location_record (location_record_of location_id l)) d)

module _ (metadata_at : ℕ → SpanMetadata) (location_at : ℕ → SpanLocation) where
  -- One arm of the `match` in `extract`.
  unfoldable pub extract_span :
      ThreadEventQueueAny → Recording ThreadRecord → Recording ThreadRecord
  extract_span (begin_thread_span_event e) d =
      record_scope_event_dependencies e.thread_span_desc (metadata_at e.thread_span_desc) d
  extract_span (end_thread_span_event e) d =
      record_scope_event_dependencies e.thread_span_desc (metadata_at e.thread_span_desc) d
  extract_span (begin_thread_named_span_event e) d =
      record_named_scope_event_dependencies e.thread_span_location
        (location_at e.thread_span_location) e.name d
  extract_span (end_thread_named_span_event e) d =
      record_named_scope_event_dependencies e.thread_span_location
        (location_at e.thread_span_location) e.name d
  extract_span (begin_async_span_event e) d =
      record_scope_event_dependencies e.span_desc (metadata_at e.span_desc) d
  extract_span (end_async_span_event e) d =
      record_scope_event_dependencies e.span_desc (metadata_at e.span_desc) d
  extract_span (begin_async_named_span_event e) d =
      record_named_scope_event_dependencies e.span_location (location_at e.span_location) e.name d
  extract_span (end_async_named_span_event e) d =
      record_named_scope_event_dependencies e.span_location (location_at e.span_location) e.name d

  -- `extract` over the events that the queue holds
  unfoldable pub extract_spans : List ThreadEventQueueAny → List (Dep ThreadRecord)
  extract_spans events = (extract_all extract_span events nothing_recorded).deps
