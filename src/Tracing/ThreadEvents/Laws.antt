-- ===== src/Tracing/ThreadEvents/Laws.antt =====
-- Every span that a thread of rust/tracing/src/dispatch.rs records goes into its stream.
use mathlib.Core.Path.{fun_ext}
use micromegas.Prelude.{
  ℕ, ◌+◌, ◌%◌, ◌^◌, ◌<◌, ◌≡◌, refl, sym, ap, ◌∙◌, List, [], ◌∷◌, ◌++◌, some, Result, ok, err, ◌>>=◌,
  length, All,
}
use micromegas.Transit.Queue.{QueueTypes, iter}
use micromegas.Transit.Queue.Laws.{Fits}
use micromegas.Tracing.Spans.{
  ThreadEventQueueAny, begin_thread_span_event, end_thread_span_event,
  begin_thread_named_span_event, end_thread_named_span_event, begin_async_span_event,
  end_async_span_event, begin_async_named_span_event, end_async_named_span_event,
}
use micromegas.Tracing.Stream.{
  DualTime, FlushTimes, EventBlock, EventStream, Step, event, flush, flush_buffer, record_event,
  step, run, new_stream,
}
use micromegas.Tracing.Stream.Blocks.{contents}
use micromegas.Tracing.Stream.Delivery.{events_of, run-new_stream}
use micromegas.Tracing.ThreadEvents.{
  ThreadState, fetch_add, to_string_id, SpanCall, begin_scope, end_scope, begin_named_scope,
  end_named_scope, begin_async_scope, end_async_scope, begin_async_named_scope,
  end_async_named_scope, flush_thread, begin_async_elsewhere, on_thread_event, flush_thread_buffer,
  on_begin_scope, on_end_scope, on_begin_named_scope, on_end_named_scope, on_begin_async_scope,
  on_end_async_scope, on_begin_async_named_scope, on_end_async_named_scope, handle, handle_all,
}

-- How many async spans the process began before, after a call.
unfoldable pub ids_after : SpanCall → ℕ → ℕ
ids_after (begin_async_scope now time scope) n = (n + 1) % 2 ^ 64
ids_after (begin_async_named_scope now time location name) n = (n + 1) % 2 ^ 64
ids_after begin_async_elsewhere n = (n + 1) % 2 ^ 64
ids_after _ n = n

-- What a call means for the stream of the thread, where the next async span gets the id `n`.
unfoldable pub steps_by : ℕ → SpanCall → List (Step ThreadEventQueueAny)
steps_by n (begin_scope now time scope) =
    event now (begin_thread_span_event (record { thread_span_desc = scope; time = time })) ∷ []
steps_by n (end_scope now time scope) =
    event now (end_thread_span_event (record { thread_span_desc = scope; time = time })) ∷ []
steps_by n (begin_named_scope now time location name) =
    event now (
      begin_thread_named_span_event
        (record { thread_span_location = location; name = to_string_id name; time = time }))
    ∷ []
steps_by n (end_named_scope now time location name) =
    event now (
      end_thread_named_span_event
        (record { thread_span_location = location; name = to_string_id name; time = time }))
    ∷ []
steps_by n (begin_async_scope now time scope) =
    event now (begin_async_span_event (record { span_desc = scope; span_id = n; time = time })) ∷ []
steps_by n (end_async_scope now time span_id scope) =
    event now (end_async_span_event (record { span_desc = scope; span_id = span_id; time = time }))
    ∷ []
steps_by n (begin_async_named_scope now time location name) =
    event now (
      begin_async_named_span_event
        (record { span_location = location; name = to_string_id name; span_id = n; time = time }))
    ∷ []
steps_by n (end_async_named_scope now time span_id location name) =
    event now (
      end_async_named_span_event (record {
        span_location = location;
        name = to_string_id name;
        span_id = span_id;
        time = time;
      }))
    ∷ []
steps_by n (flush_thread now) = flush now ∷ []
steps_by n begin_async_elsewhere = []

unfoldable pub steps_of : ℕ → List SpanCall → List (Step ThreadEventQueueAny)
steps_of n [] = []
steps_of n (c ∷ cs) = steps_by n c ++ steps_of (ids_after c n) cs

unfoldable pub ids_of : ℕ → List SpanCall → ℕ
ids_of n [] = n
ids_of n (c ∷ cs) = ids_of (ids_after c n) cs

-- A thread that has a stream, where the next async span gets the id `n`.
abbrev pub with_ids : ℕ → ℕ → EventStream × List EventBlock → ThreadState
with_ids threads_buffer_size n s = record {
  threads_buffer_size = threads_buffer_size;
  async_span_counter = n;
  thread_stream = some s.0;
  thread_blocks = s.1;
}

>>=-assoc :
    {A B C : Type 0} (first : Result A) (second : A → Result B) (third : B → Result C)
    → ((first >>= second) >>= third) ≡ (first >>= λ a. second a >>= third)
>>=-assoc (err failure) second third = refl
>>=-assoc (ok a) second third = refl

drop_id :
    {A B : Type 0} (r : Result A) (id : B)
    → ((r >>= λ a. ok (a, id)) >>= λ (pair : A × B). ok pair.0) ≡ r
drop_id (err failure) id = refl
drop_id (ok a) id = refl

module _ (with_capacity : ℕ → ℕ) (queue : QueueTypes ThreadEventQueueAny) (size : ℕ) where
  on_thread_event-run :
      (now : FlushTimes) (value : ThreadEventQueueAny) (n : ℕ) (s : EventStream × List EventBlock)
      → on_thread_event with_capacity queue now value (with_ids size n s)
        ≡ (run with_capacity queue size (event now value ∷ []) s >>= λ s'. ok (with_ids size n s'))
  unfolding on_thread_event run step
  on_thread_event-run now value n (stream, sent) =
      sym (>>=-assoc (record_event with_capacity queue now size value (stream, sent)) _ _)

  flush_thread_buffer-run :
      (now : FlushTimes) (n : ℕ) (s : EventStream × List EventBlock)
      → flush_thread_buffer with_capacity now (with_ids size n s)
        ≡ (run with_capacity queue size (flush now ∷ []) s >>= λ s'. ok (with_ids size n s'))
  unfolding flush_thread_buffer run step
  flush_thread_buffer-run now n (stream, sent) =
      sym (>>=-assoc (flush_buffer with_capacity now size (stream, sent)) _ _)

  another :
      (n : ℕ) (s : EventStream × List EventBlock)
      → ok (fetch_add (with_ids size n s))
        ≡ (run with_capacity queue size [] s >>= λ s'. ok (with_ids size ((n + 1) % 2 ^ 64) s'))
  unfolding run
  another n s = refl

  nothing_done :
      (n : ℕ) (s : EventStream × List EventBlock)
      → ok (with_ids size n s)
        ≡ (run with_capacity queue size [] s >>= λ s'. ok (with_ids size n s'))
  unfolding run
  nothing_done n s = refl

  begun :
      (now : FlushTimes) (value : ThreadEventQueueAny) (n : ℕ) (s : EventStream × List EventBlock)
      → on_thread_event with_capacity queue now value (fetch_add (with_ids size n s)) ≡ (
          run with_capacity queue size (event now value ∷ []) s >>= λ s'.
          ok (with_ids size ((n + 1) % 2 ^ 64) s'))
  begun now value n s = on_thread_event-run now value ((n + 1) % 2 ^ 64) s

  -- A handler does its steps on the stream.
  handle-run :
      (c : SpanCall) (n : ℕ) (s : EventStream × List EventBlock)
      → handle with_capacity queue c (with_ids size n s) ≡ (
          run with_capacity queue size (steps_by n c) s >>= λ s'.
          ok (with_ids size (ids_after c n) s'))
  unfolding handle steps_by ids_after on_begin_scope on_end_scope on_begin_named_scope
      on_end_named_scope on_begin_async_scope on_end_async_scope on_begin_async_named_scope
      on_end_async_named_scope
  handle-run (begin_scope now time scope) n s = on_thread_event-run now _ n s
  handle-run (end_scope now time scope) n s = on_thread_event-run now _ n s
  handle-run (begin_named_scope now time location name) n s = on_thread_event-run now _ n s
  handle-run (end_named_scope now time location name) n s = on_thread_event-run now _ n s
  handle-run (begin_async_scope now time scope) n s =
      drop_id (on_thread_event with_capacity queue now _ (fetch_add (with_ids size n s))) n
      ∙ begun now _ n s
  handle-run (end_async_scope now time span_id scope) n s = on_thread_event-run now _ n s
  handle-run (begin_async_named_scope now time location name) n s =
      drop_id (on_thread_event with_capacity queue now _ (fetch_add (with_ids size n s))) n
      ∙ begun now _ n s
  handle-run (end_async_named_scope now time span_id location name) n s =
      on_thread_event-run now _ n s
  handle-run (flush_thread now) n s = flush_thread_buffer-run now n s
  handle-run begin_async_elsewhere n (stream, sent) = another n (stream, sent)

  run-append :
      (before later : List (Step ThreadEventQueueAny)) (s : EventStream × List EventBlock)
      → run with_capacity queue size (before ++ later) s
        ≡ (run with_capacity queue size before s >>= run with_capacity queue size later)
  unfolding run
  run-append [] later s = refl
  run-append (t ∷ before) later s =
      ap (λ rest. step with_capacity queue size t s >>= rest)
        (fun_ext (λ s'. run-append before later s'))
      ∙ sym (>>=-assoc (step with_capacity queue size t s) _ _)

  -- The handlers do the steps of their calls on the stream, in the order of the calls.
  handle_all-run :
      (cs : List SpanCall) (n : ℕ) (s : EventStream × List EventBlock)
      → handle_all with_capacity queue cs (with_ids size n s) ≡ (
          run with_capacity queue size (steps_of n cs) s >>= λ s'.
          ok (with_ids size (ids_of n cs) s'))
  unfolding handle_all steps_of ids_of
  handle_all-run [] n s = nothing_done n s
  handle_all-run (c ∷ cs) n s =
      let here = run with_capacity queue size (steps_by n c) s in
      ap (λ r. r >>= handle_all with_capacity queue cs) (handle-run c n s)
      ∙ >>=-assoc here _ _
      ∙ ap (λ rest. here >>= rest) (fun_ext (λ s'. handle_all-run cs (ids_after c n) s'))
      ∙ sym (>>=-assoc here _ _)
      ∙ ap (λ r. r >>= λ s'. ok (with_ids size (ids_of (ids_after c n) cs) s'))
          (sym (run-append (steps_by n c) (steps_of (ids_after c n) cs) s))

  -- However a thread with a new stream calls the handlers of its spans, the flushes and the async
  -- spans of other threads included, no call fails, as long as the events fit and are fewer than
  -- 2^64. The thread keeps its stream: its blocks that the sink got, with the current block behind
  -- them, hold exactly one event for each begin and end of a span, in the order of the calls, where a
  -- begin of an async span has the count of those that the process began before as its id.
  pub handle_all-with_ids :
      (now : DualTime) (process_id stream_id n : ℕ) (cs : List SpanCall)
      → length (events_of (steps_of n cs)) < 2 ^ 64
      → All (Fits queue) (events_of (steps_of n cs))
      → (stream : EventStream) × (sent : List EventBlock) × (before : List ThreadEventQueueAny)
        × (current : List ThreadEventQueueAny) × (handle_all with_capacity queue cs
              (with_ids size n (new_stream with_capacity now size process_id stream_id, []))
            ≡ ok (with_ids size (ids_of n cs) (stream, sent)))
        × (contents queue sent ≡ ok before)
        × (iter queue stream.current_block.events ≡ ok current)
        × (before ++ current ≡ events_of (steps_of n cs))
  handle_all-with_ids now process_id stream_id n cs small fits =
      let (stream, sent, before, current, ran, delivered, read, split, numbered, offset) =
        run-new_stream with_capacity queue size now process_id stream_id (steps_of n cs) small
          fits in
      let start : EventStream × List EventBlock =
        (new_stream with_capacity now size process_id stream_id, []) in
      (stream, sent, before, current, rw ran at (handle_all-run cs n start), delivered, read, split)
