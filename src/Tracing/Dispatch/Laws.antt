-- ===== src/Tracing/Dispatch/Laws.antt =====
-- Every log that rust/tracing/src/dispatch.rs accepts goes to the sink and into the stream.
use micromegas.Prelude.{
  ℕ, ◌^◌, ◌<◌, ◌≡◌, refl, sym, ap, ◌∙◌, true, false, List, [], ◌∷◌, ◌++◌, ok, >>=-eq-ok, append-nil,
  append_assoc, length, All,
}
use micromegas.Transit.Queue.{QueueTypes, iter}
use micromegas.Transit.Queue.Laws.{Fits}
use micromegas.Tracing.LogEvents.{StringId, LogMsgQueueAny}
use micromegas.Tracing.Dependencies.{LogMetadata, StaticString}
use micromegas.Tracing.Stream.{
  DualTime, FlushTimes, EventBlock, EventStream, Step, event, record_event, step, run, new_stream,
}
use micromegas.Tracing.Stream.Blocks.{contents}
use micromegas.Tracing.Stream.Delivery.{events_of, run-new_stream}
use micromegas.Tracing.Dispatch.{
  OnLog, LogDispatch, log_event, log_interop_event, push_log, log, log_interop, LogCall, log_call,
  log_interop_call, handle, handle_all,
}

module _ (intern_string : StaticString → StringId) (metadata_at : ℕ → LogMetadata)
    (with_capacity : ℕ → ℕ) (queue : QueueTypes LogMsgQueueAny) where
  abbrev pub Calls : Type 0
  Calls = List (LogCall intern_string metadata_at with_capacity queue)

  -- The logs that are accepted: what the sink is called with, and the event.
  unfoldable pub accepted : Calls → List (OnLog × FlushTimes × LogMsgQueueAny)
  accepted [] = []
  accepted (log_call true now desc time args ∷ cs) =
      (
        record { metadata = metadata_at desc; time = time; args = args },
        now,
        log_event desc time args,
      )
      ∷ accepted cs
  accepted (log_call false now desc time args ∷ cs) = accepted cs
  accepted (log_interop_call now desc time args ∷ cs) =
      (
        record { metadata = desc; time = time; args = args },
        now,
        log_interop_event intern_string desc time args,
      )
      ∷ accepted cs

  unfoldable pub calls_of : List (OnLog × FlushTimes × LogMsgQueueAny) → List OnLog
  calls_of [] = []
  calls_of ((c, now, e) ∷ later) = c ∷ calls_of later

  unfoldable pub steps_of : List (OnLog × FlushTimes × LogMsgQueueAny) → List (Step LogMsgQueueAny)
  steps_of [] = []
  steps_of ((c, now, e) ∷ later) = event now e ∷ steps_of later

  abbrev after : List OnLog → LogDispatch → EventStream × List EventBlock → LogDispatch
  after calls d (stream, blocks) = record d {
    log_stream = stream;
    on_log_calls = d.on_log_calls ++ calls;
    log_blocks = blocks;
  }

  push_log-record_event :
      (now : FlushTimes) (e : LogMsgQueueAny) (call : OnLog) (d : LogDispatch)
      (s : EventStream × List EventBlock)
      → record_event with_capacity queue now d.logs_buffer_size e (d.log_stream, d.log_blocks)
        ≡ ok s
      → push_log intern_string metadata_at with_capacity queue now e call d
        ≡ ok (after (call ∷ []) d s)
  unfolding push_log
  push_log-record_event now e call d (stream, blocks) ran = rw ran

  after-after :
      (call : OnLog) (calls : List OnLog) (d : LogDispatch) (s1 s : EventStream × List EventBlock)
      → after calls (after (call ∷ []) d s1) s ≡ after (call ∷ calls) d s
  after-after call calls d (stream1, blocks1) (stream, blocks) =
      ap (λ l. record d { log_stream = stream; on_log_calls = l; log_blocks = blocks })
        (append_assoc d.on_log_calls (call ∷ []) calls)

  handle_all-run :
      (cs : Calls) (d : LogDispatch) (s : EventStream × List EventBlock)
      → run with_capacity queue d.logs_buffer_size
          (steps_of (accepted cs))
          (d.log_stream, d.log_blocks)
        ≡ ok s
      → handle_all intern_string metadata_at with_capacity queue cs d
        ≡ ok (after (calls_of (accepted cs)) d s)
  unfolding handle_all handle log log_interop accepted steps_of calls_of run step
  handle_all-run [] d s ran =
      let same : (d.log_stream, d.log_blocks) ≡ s = cc in
      ap
        (λ (t : EventStream × List EventBlock).
          ok (record d { log_stream = t.0; log_blocks = t.1 }))
        same
      ∙ ap (λ l. ok (record d { log_stream = s.0; on_log_calls = l; log_blocks = s.1 }))
          (sym (append-nil d.on_log_calls))
  handle_all-run (log_call true now desc time args ∷ cs) d s ran =
      let e = log_event desc time args in
      let call : OnLog = record { metadata = metadata_at desc; time = time; args = args } in
      let (s1, one, rest) =
        >>=-eq-ok
          (record_event with_capacity queue now d.logs_buffer_size e (d.log_stream, d.log_blocks)) _
          ran in
      rw (push_log-record_event now e call d s1 one) (
        handle_all-run cs (after (call ∷ []) d s1) s rest
        ∙ ap ok (after-after call (calls_of (accepted cs)) d s1 s))
  handle_all-run (log_call false now desc time args ∷ cs) d s ran = handle_all-run cs d s ran
  handle_all-run (log_interop_call now desc time args ∷ cs) d s ran =
      let e = log_interop_event intern_string desc time args in
      let call : OnLog = record { metadata = desc; time = time; args = args } in
      let (s1, one, rest) =
        >>=-eq-ok
          (record_event with_capacity queue now d.logs_buffer_size e (d.log_stream, d.log_blocks)) _
          ran in
      rw (push_log-record_event now e call d s1 one) (
        handle_all-run cs (after (call ∷ []) d s1) s rest
        ∙ ap ok (after-after call (calls_of (accepted cs)) d s1 s))

  -- However logs are called on a new stream, none fails, as long as the events that are accepted fit
  -- and are fewer than 2^64: the sink's `on_log` is called for exactly the logs that it enabled and
  -- the interop logs, in their order; and the blocks that it got, with the current block behind them,
  -- hold exactly one event for each of them, in the same order.
  pub handle_all-new_stream :
      (now : DualTime) (logs_buffer_size process_id stream_id : ℕ) (cs : Calls)
      → length (events_of (steps_of (accepted cs))) < 2 ^ 64
      → All (Fits queue) (events_of (steps_of (accepted cs)))
      → (d : LogDispatch) × (before : List LogMsgQueueAny) × (current : List LogMsgQueueAny)
        × (handle_all intern_string metadata_at with_capacity queue cs (record {
          logs_buffer_size = logs_buffer_size;
          log_stream = new_stream with_capacity now logs_buffer_size process_id stream_id;
          on_log_calls = [];
          log_blocks = [];
        })
            ≡ ok d)
        × (d.on_log_calls ≡ calls_of (accepted cs))
        × (contents queue d.log_blocks ≡ ok before)
        × (iter queue d.log_stream.current_block.events ≡ ok current)
        × (before ++ current ≡ events_of (steps_of (accepted cs)))
  handle_all-new_stream now logs_buffer_size process_id stream_id cs small fits =
      let (stream, sent, before, current, ran, delivered, read, split, numbered, offset) =
        run-new_stream with_capacity queue logs_buffer_size now process_id stream_id
          (steps_of (accepted cs)) small fits in
      let start : LogDispatch = record {
        logs_buffer_size = logs_buffer_size;
        log_stream = new_stream with_capacity now logs_buffer_size process_id stream_id;
        on_log_calls = [];
        log_blocks = [];
      } in
      (
        after (calls_of (accepted cs)) start (stream, sent),
        before,
        current,
        handle_all-run cs start (stream, sent) ran,
        refl,
        delivered,
        read,
        split,
      )
