-- ===== src/Tracing/Spans/Queue.antt =====
-- `ThreadEventQueue`, the queue of the spans of a thread (rust/tracing/src/spans/block.rs). The memory
-- layouts of its eight types, which serialize as plain data, are arguments.
use micromegas.Prelude.{ℕ, refl, List, [], ◌∷◌, Option, none, some, All}
use micromegas.Transit.Queue.{InProcSerialize, QueueTypes}
use micromegas.Transit.Queue.Laws.{Fits}
use micromegas.Tracing.LogEvents.{Layout, pod}
use micromegas.Tracing.LogEvents.Laws.{IsLayout}
use micromegas.Tracing.Spans.{
  ThreadSpanEvent, ThreadNamedSpanEvent, AsyncSpanEvent, AsyncNamedSpanEvent, ThreadEventQueueAny,
  begin_thread_span_event, end_thread_span_event, begin_thread_named_span_event,
  end_thread_named_span_event, begin_async_span_event, end_async_span_event,
  begin_async_named_span_event, end_async_named_span_event,
}

pub record SpanLayouts : Type 0 where
  pub begin_thread_span : Layout ThreadSpanEvent
  pub end_thread_span : Layout ThreadSpanEvent
  pub begin_thread_named_span : Layout ThreadNamedSpanEvent
  pub end_thread_named_span : Layout ThreadNamedSpanEvent
  pub begin_async_span : Layout AsyncSpanEvent
  pub end_async_span : Layout AsyncSpanEvent
  pub begin_async_named_span : Layout AsyncNamedSpanEvent
  pub end_async_named_span : Layout AsyncNamedSpanEvent

abbrev as_begin_thread_span : ThreadEventQueueAny → Option ThreadSpanEvent
as_begin_thread_span (begin_thread_span_event e) = some e
as_begin_thread_span _ = none

abbrev as_end_thread_span : ThreadEventQueueAny → Option ThreadSpanEvent
as_end_thread_span (end_thread_span_event e) = some e
as_end_thread_span _ = none

abbrev as_begin_thread_named_span : ThreadEventQueueAny → Option ThreadNamedSpanEvent
as_begin_thread_named_span (begin_thread_named_span_event e) = some e
as_begin_thread_named_span _ = none

abbrev as_end_thread_named_span : ThreadEventQueueAny → Option ThreadNamedSpanEvent
as_end_thread_named_span (end_thread_named_span_event e) = some e
as_end_thread_named_span _ = none

abbrev as_begin_async_span : ThreadEventQueueAny → Option AsyncSpanEvent
as_begin_async_span (begin_async_span_event e) = some e
as_begin_async_span _ = none

abbrev as_end_async_span : ThreadEventQueueAny → Option AsyncSpanEvent
as_end_async_span (end_async_span_event e) = some e
as_end_async_span _ = none

abbrev as_begin_async_named_span : ThreadEventQueueAny → Option AsyncNamedSpanEvent
as_begin_async_named_span (begin_async_named_span_event e) = some e
as_begin_async_named_span _ = none

abbrev as_end_async_named_span : ThreadEventQueueAny → Option AsyncNamedSpanEvent
as_end_async_named_span (end_async_named_span_event e) = some e
as_end_async_named_span _ = none

abbrev pub span_type_index : ThreadEventQueueAny → ℕ
span_type_index (begin_thread_span_event _) = 0
span_type_index (end_thread_span_event _) = 1
span_type_index (begin_thread_named_span_event _) = 2
span_type_index (end_thread_named_span_event _) = 3
span_type_index (begin_async_span_event _) = 4
span_type_index (end_async_span_event _) = 5
span_type_index (begin_async_named_span_event _) = 6
span_type_index (end_async_named_span_event _) = 7

module _ (layouts : SpanLayouts) where
  abbrev span_serializer : ThreadEventQueueAny → InProcSerialize ThreadEventQueueAny
  span_serializer (begin_thread_span_event _) =
      pod begin_thread_span_event as_begin_thread_span layouts.begin_thread_span
  span_serializer (end_thread_span_event _) =
      pod end_thread_span_event as_end_thread_span layouts.end_thread_span
  span_serializer (begin_thread_named_span_event _) =
      pod begin_thread_named_span_event as_begin_thread_named_span layouts.begin_thread_named_span
  span_serializer (end_thread_named_span_event _) =
      pod end_thread_named_span_event as_end_thread_named_span layouts.end_thread_named_span
  span_serializer (begin_async_span_event _) =
      pod begin_async_span_event as_begin_async_span layouts.begin_async_span
  span_serializer (end_async_span_event _) =
      pod end_async_span_event as_end_async_span layouts.end_async_span
  span_serializer (begin_async_named_span_event _) =
      pod begin_async_named_span_event as_begin_async_named_span layouts.begin_async_named_span
  span_serializer (end_async_named_span_event _) =
      pod end_async_named_span_event as_end_async_named_span layouts.end_async_named_span

  -- `ThreadEventQueue`
  abbrev pub thread_event_queue : QueueTypes ThreadEventQueueAny
  thread_event_queue = record {
    type_index = span_type_index;
    serializer = span_serializer;
    types =
        pod begin_thread_span_event as_begin_thread_span layouts.begin_thread_span
        ∷ pod end_thread_span_event as_end_thread_span layouts.end_thread_span
        ∷ pod begin_thread_named_span_event as_begin_thread_named_span
            layouts.begin_thread_named_span
        ∷ pod end_thread_named_span_event as_end_thread_named_span layouts.end_thread_named_span
        ∷ pod begin_async_span_event as_begin_async_span layouts.begin_async_span
        ∷ pod end_async_span_event as_end_async_span layouts.end_async_span
        ∷ pod begin_async_named_span_event as_begin_async_named_span layouts.begin_async_named_span
        ∷ pod end_async_named_span_event as_end_async_named_span layouts.end_async_named_span
        ∷ [];
  }

  -- The memory of an event reads back.
  abbrev pub SpanFits : ThreadEventQueueAny → Type 0
  SpanFits (begin_thread_span_event e) = IsLayout layouts.begin_thread_span e
  SpanFits (end_thread_span_event e) = IsLayout layouts.end_thread_span e
  SpanFits (begin_thread_named_span_event e) = IsLayout layouts.begin_thread_named_span e
  SpanFits (end_thread_named_span_event e) = IsLayout layouts.end_thread_named_span e
  SpanFits (begin_async_span_event e) = IsLayout layouts.begin_async_span e
  SpanFits (end_async_span_event e) = IsLayout layouts.end_async_span e
  SpanFits (begin_async_named_span_event e) = IsLayout layouts.begin_async_named_span e
  SpanFits (end_async_named_span_event e) = IsLayout layouts.end_async_named_span e

  span-Fits : (v : ThreadEventQueueAny) → SpanFits v → Fits thread_event_queue v
  span-Fits (begin_thread_span_event e) fits = record {
    indexed = refl;
    encodes = (fits.size, λ front back. rw (fits.read_back front back));
  }
  span-Fits (end_thread_span_event e) fits = record {
    indexed = refl;
    encodes = (fits.size, λ front back. rw (fits.read_back front back));
  }
  span-Fits (begin_thread_named_span_event e) fits = record {
    indexed = refl;
    encodes = (fits.size, λ front back. rw (fits.read_back front back));
  }
  span-Fits (end_thread_named_span_event e) fits = record {
    indexed = refl;
    encodes = (fits.size, λ front back. rw (fits.read_back front back));
  }
  span-Fits (begin_async_span_event e) fits = record {
    indexed = refl;
    encodes = (fits.size, λ front back. rw (fits.read_back front back));
  }
  span-Fits (end_async_span_event e) fits = record {
    indexed = refl;
    encodes = (fits.size, λ front back. rw (fits.read_back front back));
  }
  span-Fits (begin_async_named_span_event e) fits = record {
    indexed = refl;
    encodes = (fits.size, λ front back. rw (fits.read_back front back));
  }
  span-Fits (end_async_named_span_event e) fits = record {
    indexed = refl;
    encodes = (fits.size, λ front back. rw (fits.read_back front back));
  }

  pub spans-Fits :
      (events : List ThreadEventQueueAny)
      → All SpanFits events
      → All (Fits thread_event_queue) events
  spans-Fits [] fits = tt
  spans-Fits (e ∷ es) (fit, fits) = (span-Fits e fit, spans-Fits es fits)
