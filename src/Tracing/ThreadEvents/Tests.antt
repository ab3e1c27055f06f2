-- ===== src/Tracing/ThreadEvents/Tests.antt =====
-- Spans of a thread with a new stream at concrete inputs.
use micromegas.Prelude.{
  ℕ, ◌+◌, ◌^◌, ◌<◌, ◌≡◌, ℤ, pos, IsI64, List, [], ◌∷◌, ◌++◌, ok, ◌>>=◌, length, length-append,
  append_assoc, All, arith,
}
use micromegas.Transit.Bytes.{le_bytes, read_any, length-le_bytes, read_any-le_bytes}
use micromegas.Transit.Queue.{iter}
use micromegas.Transit.Queue.Laws.{Fits}
use micromegas.Tracing.LogEvents.{Layout}
use micromegas.Tracing.LogEvents.Laws.{IsLayout}
use micromegas.Tracing.Spans.{
  ThreadSpanEvent, ThreadNamedSpanEvent, AsyncSpanEvent, AsyncNamedSpanEvent, ThreadEventQueueAny,
}
use micromegas.Tracing.Spans.Queue.{SpanLayouts, thread_event_queue, spans-Fits}
use micromegas.Tracing.Stream.{DualTime, FlushTimes, EventBlock, EventStream, new_stream}
use micromegas.Tracing.Stream.Blocks.{contents}
use micromegas.Tracing.Stream.Delivery.{events_of}
use micromegas.Tracing.ThreadEvents.{
  SpanCall, begin_scope, end_scope, begin_async_scope, begin_async_elsewhere, flush_thread,
  handle_all,
}
use micromegas.Tracing.ThreadEvents.Laws.{
  with_ids, ids_after, ids_of, steps_by, steps_of, handle_all-with_ids,
}
use micromegas.Tracing.Tests.{string_id, static_str, static_str-IsLayout}

-- Layouts with the fields in their order and no padding.
abbrev thread_span : Layout ThreadSpanEvent
thread_span = record {
  size_of = 16;
  image = λ e. static_str.image (record { desc = e.thread_span_desc; time = e.time });
  read = λ buffer ptr. (do
    e ← static_str.read buffer ptr
    ok (record { thread_span_desc = e.desc; time = e.time }));
}

abbrev thread_named_span : Layout ThreadNamedSpanEvent
thread_named_span = record {
  size_of = 28;
  image = λ e.
      string_id.image e.name
      ++ static_str.image (record { desc = e.thread_span_location; time = e.time });
  read = λ buffer ptr. (do
    name ← string_id.read buffer ptr
    e ← static_str.read buffer (ptr + 12)
    ok (record { thread_span_location = e.desc; name = name; time = e.time }));
}

abbrev async_span : Layout AsyncSpanEvent
async_span = record {
  size_of = 24;
  image =
      λ e. le_bytes 8 e.span_id ++ static_str.image (record { desc = e.span_desc; time = e.time });
  read = λ buffer ptr. (do
    id ← read_any 8 buffer ptr
    e ← static_str.read buffer (ptr + 8)
    ok (record { span_desc = e.desc; span_id = id; time = e.time }));
}

abbrev async_named_span : Layout AsyncNamedSpanEvent
async_named_span = record {
  size_of = 36;
  image = λ e.
      le_bytes 8 e.span_id
      ++ (string_id.image e.name
          ++ static_str.image (record { desc = e.span_location; time = e.time }));
  read = λ buffer ptr. (do
    id ← read_any 8 buffer ptr
    name ← string_id.read buffer (ptr + 8)
    e ← static_str.read buffer (ptr + 20)
    ok (record { span_location = e.desc; name = name; span_id = id; time = e.time }));
}

abbrev layouts : SpanLayouts
layouts = record {
  begin_thread_span = thread_span;
  end_thread_span = thread_span;
  begin_thread_named_span = thread_named_span;
  end_thread_named_span = thread_named_span;
  begin_async_span = async_span;
  end_async_span = async_span;
  begin_async_named_span = async_named_span;
  end_async_named_span = async_named_span;
}

thread_span-IsLayout :
    (d : ℕ) (t : ℤ)
    → d < 256 ^ 8
    → IsI64 t
    → IsLayout thread_span (record { thread_span_desc = d; time = t })
thread_span-IsLayout d t d_u64 t_i64 =
    let law = static_str-IsLayout d t d_u64 t_i64 in
    record { size = law.size; read_back = λ front back. rw (law.read_back front back) }

async_span-IsLayout :
    (d id : ℕ) (t : ℤ)
    → d < 256 ^ 8
    → id < 256 ^ 8
    → IsI64 t
    → IsLayout async_span (record { span_desc = d; span_id = id; time = t })
async_span-IsLayout d id t d_u64 id_u64 t_i64 =
    let law = static_str-IsLayout d t d_u64 t_i64 in
    let rest = static_str.image (record { desc = d; time = t }) in
    record {
      size = omega (arith, length-append (le_bytes 8 id) rest, length-le_bytes 8 id, law.size);
      read_back = λ front back.
          let at_rest : static_str.read (front ++ (le_bytes 8 id ++ (rest ++ back)))
                (length front + 8)
              ≡ ok (record { desc = d; time = t }) =
            rw (append_assoc, length-append, length-le_bytes) at
              (law.read_back (front ++ le_bytes 8 id) back) in
          rw (append_assoc, read_any-le_bytes 8 id front (rest ++ back) id_u64, at_rest);
    }

abbrev at : ℕ → DualTime
at n = record { ticks = pos n; time = pos n }

abbrev both : ℕ → FlushTimes
both n = record { begin = at n; end = at (n + 1) }

-- Another thread begins an async span before this thread does.
abbrev five_calls : List SpanCall
five_calls =
    begin_scope (both 1) (pos 1) 4096
    ∷ begin_async_elsewhere
    ∷ flush_thread (both 2)
    ∷ begin_async_scope (both 3) (pos 3) 8192
    ∷ end_scope (both 4) (pos 4) 4096
    ∷ []

abbrev span_events : List ThreadEventQueueAny
span_events = events_of (steps_of 6 five_calls)

span_events-length : length span_events < 2 ^ 64
unfolding events_of steps_of steps_by ids_after
span_events-length = omega arith

span_events-Fits : All (Fits (thread_event_queue layouts)) span_events
unfolding events_of steps_of steps_by ids_after
span_events-Fits = spans-Fits layouts span_events (
  thread_span-IsLayout 4096 (pos 1) (omega arith) (ground arith),
  (
    async_span-IsLayout 8192 7 (pos 3) (omega arith) (omega arith) (ground arith),
    (thread_span-IsLayout 4096 (pos 4) (omega arith) (ground arith), tt),
  ),
)

handle_all-with_ids_example :
    (stream : EventStream) × (sent : List EventBlock) × (before : List ThreadEventQueueAny)
    × (current : List ThreadEventQueueAny) × (handle_all
          (λ size. size)
          (thread_event_queue layouts)
          five_calls
          (with_ids 1024 6 (new_stream (λ size. size) (at 0) 1024 1 2, []))
        ≡ ok (with_ids 1024 (ids_of 6 five_calls) (stream, sent)))
    × (contents (thread_event_queue layouts) sent ≡ ok before)
    × (iter (thread_event_queue layouts) stream.current_block.events ≡ ok current)
    × (before ++ current ≡ span_events)
handle_all-with_ids_example =
    handle_all-with_ids (λ size. size) (thread_event_queue layouts) 1024 (at 0) 1 2 6 five_calls
      span_events-length span_events-Fits
