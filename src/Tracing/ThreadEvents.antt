-- ===== src/Tracing/ThreadEvents.antt =====
-- How rust/tracing/src/dispatch.rs handles the spans of one thread: the handlers of the begin and the
-- end of a span, `on_thread_event` and `flush_thread_buffer`. The dispatch is there, as it is whenever
-- a thread has a stream; the clock comes with a call. The counter of async spans is shared by the
-- threads of the process.
pub mod Laws
mod Tests
use micromegas.Prelude.{ℕ, ◌+◌, ◌%◌, ◌^◌, ℤ, List, [], ◌∷◌, Option, none, some, Result, ok, ◌>>=◌}
use micromegas.Transit.Queue.{QueueTypes}
use micromegas.Tracing.LogEvents.{StringId}
use micromegas.Tracing.Dependencies.{StaticString}
use micromegas.Tracing.Spans.{
  ThreadEventQueueAny, begin_thread_span_event, end_thread_span_event,
  begin_thread_named_span_event, end_thread_named_span_event, begin_async_span_event,
  end_async_span_event, begin_async_named_span_event, end_async_named_span_event,
}
use micromegas.Tracing.Stream.{FlushTimes, EventBlock, EventStream, flush_buffer, record_event}

-- What the spans of a thread change: `G_ASYNC_SPAN_COUNTER` and `LOCAL_THREAD_STREAM`, with the
-- thread's blocks that the sink has got.
pub record ThreadState : Type 0 where
  pub threads_buffer_size : ℕ
  pub async_span_counter : ℕ
  pub thread_stream : Option EventStream
  pub thread_blocks : List EventBlock

-- `StringId::from(&'static str)`
abbrev pub to_string_id : StaticString → StringId
to_string_id src = record { ptr = src.ptr; len = src.len }

-- `G_ASYNC_SPAN_COUNTER.fetch_add(1)`
abbrev pub fetch_add : ThreadState → ThreadState
fetch_add t = record t { async_span_counter = (t.async_span_counter + 1) % 2 ^ 64 }

abbrev pub with_stream : ThreadState → EventStream × List EventBlock → ThreadState
with_stream t (stream, blocks) = record t { thread_stream = some stream; thread_blocks = blocks }

module _ (with_capacity : ℕ → ℕ) where
  unfoldable pub flush_thread_buffer : FlushTimes → ThreadState → Result ThreadState
  flush_thread_buffer now t = elim t.thread_stream [
    | none ↦ ok t
    | some stream ↦ (do
      s ← flush_buffer with_capacity now t.threads_buffer_size (stream, t.thread_blocks)
      ok (with_stream t s))
  ]

module _ (with_capacity : ℕ → ℕ) (queue : QueueTypes ThreadEventQueueAny) where
  unfoldable pub on_thread_event :
      FlushTimes → ThreadEventQueueAny → ThreadState → Result ThreadState
  on_thread_event now value t = elim t.thread_stream [
    | none ↦ ok t
    | some stream ↦ (do
      s ← record_event with_capacity queue now t.threads_buffer_size value (stream, t.thread_blocks)
      ok (with_stream t s))
  ]

  unfoldable pub on_begin_scope : FlushTimes → ℤ → ℕ → ThreadState → Result ThreadState
  on_begin_scope now time scope =
      on_thread_event now
        (begin_thread_span_event (record { thread_span_desc = scope; time = time }))

  unfoldable pub on_end_scope : FlushTimes → ℤ → ℕ → ThreadState → Result ThreadState
  on_end_scope now time scope =
      on_thread_event now (end_thread_span_event (record { thread_span_desc = scope; time = time }))

  unfoldable pub on_begin_named_scope :
      FlushTimes → ℤ → ℕ → StaticString → ThreadState → Result ThreadState
  on_begin_named_scope now time location name = on_thread_event now (
      begin_thread_named_span_event
        (record { thread_span_location = location; name = to_string_id name; time = time }))

  unfoldable pub on_end_named_scope :
      FlushTimes → ℤ → ℕ → StaticString → ThreadState → Result ThreadState
  on_end_named_scope now time location name = on_thread_event now (
      end_thread_named_span_event
        (record { thread_span_location = location; name = to_string_id name; time = time }))

  -- A handler that begins an async span returns its id.
  unfoldable pub on_begin_async_scope : FlushTimes → ℤ → ℕ → ThreadState → Result (ThreadState × ℕ)
  on_begin_async_scope now time scope t = do
    let id = t.async_span_counter
    t' ←
        on_thread_event now
          (begin_async_span_event (record { span_desc = scope; span_id = id; time = time }))
          (fetch_add t)
    ok (t', id)

  unfoldable pub on_end_async_scope : FlushTimes → ℤ → ℕ → ℕ → ThreadState → Result ThreadState
  on_end_async_scope now time span_id scope =
      on_thread_event now
        (end_async_span_event (record { span_desc = scope; span_id = span_id; time = time }))

  unfoldable pub on_begin_async_named_scope :
      FlushTimes → ℤ → ℕ → StaticString → ThreadState → Result (ThreadState × ℕ)
  on_begin_async_named_scope now time location name t = do
    let id = t.async_span_counter
    t' ←
        on_thread_event now
          (begin_async_named_span_event (record {
            span_location = location;
            name = to_string_id name;
            span_id = id;
            time = time;
          }))
          (fetch_add t)
    ok (t', id)

  unfoldable pub on_end_async_named_scope :
      FlushTimes → ℤ → ℕ → ℕ → StaticString → ThreadState → Result ThreadState
  on_end_async_named_scope now time span_id location name = on_thread_event now (
      end_async_named_span_event (record {
        span_location = location;
        name = to_string_id name;
        span_id = span_id;
        time = time;
      }))

-- What a thread calls, in its order, and the async spans that another thread begins in between.
pub data SpanCall : Type 0 where
  begin_scope end_scope : FlushTimes → ℤ → ℕ → SpanCall
  begin_named_scope end_named_scope : FlushTimes → ℤ → ℕ → StaticString → SpanCall
  begin_async_scope : FlushTimes → ℤ → ℕ → SpanCall
  end_async_scope : FlushTimes → ℤ → ℕ → ℕ → SpanCall
  begin_async_named_scope : FlushTimes → ℤ → ℕ → StaticString → SpanCall
  end_async_named_scope : FlushTimes → ℤ → ℕ → ℕ → StaticString → SpanCall
  flush_thread : FlushTimes → SpanCall
  begin_async_elsewhere : SpanCall

module _ (with_capacity : ℕ → ℕ) (queue : QueueTypes ThreadEventQueueAny) where
  unfoldable pub handle : SpanCall → ThreadState → Result ThreadState
  handle (begin_scope now time scope) t = on_begin_scope with_capacity queue now time scope t
  handle (end_scope now time scope) t = on_end_scope with_capacity queue now time scope t
  handle (begin_named_scope now time location name) t =
      on_begin_named_scope with_capacity queue now time location name t
  handle (end_named_scope now time location name) t =
      on_end_named_scope with_capacity queue now time location name t
  handle (begin_async_scope now time scope) t = do
    (t', id) ← on_begin_async_scope with_capacity queue now time scope t
    ok t'
  handle (end_async_scope now time span_id scope) t =
      on_end_async_scope with_capacity queue now time span_id scope t
  handle (begin_async_named_scope now time location name) t = do
    (t', id) ← on_begin_async_named_scope with_capacity queue now time location name t
    ok t'
  handle (end_async_named_scope now time span_id location name) t =
      on_end_async_named_scope with_capacity queue now time span_id location name t
  handle (flush_thread now) t = flush_thread_buffer with_capacity now t
  handle begin_async_elsewhere t = ok (fetch_add t)

  unfoldable pub handle_all : List SpanCall → ThreadState → Result ThreadState
  handle_all [] t = ok t
  handle_all (c ∷ cs) t = do t' ← handle c t; handle_all cs t'
