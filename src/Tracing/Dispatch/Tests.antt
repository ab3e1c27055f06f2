-- ===== src/Tracing/Dispatch/Tests.antt =====
-- Logs on a new stream at concrete inputs.
use micromegas.Prelude.{
  ℕ, ◌+◌, ◌^◌, ◌<◌, ◌≡◌, true, false, pos, List, [], ◌∷◌, ◌++◌, some, ok, length, All, arith,
}
use micromegas.Transit.Queue.{iter}
use micromegas.Transit.Queue.Laws.{Fits}
use micromegas.Tracing.LogEvents.{StringId, LogMsgQueueAny, log_static_str_event, log_msg_queue}
use micromegas.Tracing.LogEvents.Laws.{events-Fits}
use micromegas.Tracing.Dependencies.{StaticString}
use micromegas.Tracing.Stream.{DualTime, FlushTimes, new_stream}
use micromegas.Tracing.Stream.Blocks.{contents}
use micromegas.Tracing.Stream.Delivery.{events_of}
use micromegas.Tracing.Dispatch.{Arguments, LogDispatch, log_call, log_event, handle_all}
use micromegas.Tracing.Dispatch.Laws.{Calls, accepted, calls_of, steps_of, handle_all-new_stream}
use micromegas.Tracing.Tests.{
  string_id, static_str, static_str_interop, static_str-IsLayout, one_metadata,
}

abbrev intern : StaticString → StringId
intern s = record { ptr = s.ptr; len = s.len }

abbrev hello : Arguments
hello = record { as_str = some (record { ptr = 500; len = 5 }); to_string = [] }

abbrev at : ℕ → DualTime
at n = record { ticks = pos n; time = pos n }

abbrev both : ℕ → FlushTimes
both n = record { begin = at n; end = at (n + 1) }

-- Two logs, of which the sink enables the second.
abbrev two_calls :
    Calls intern one_metadata (λ size. size) (log_msg_queue static_str static_str_interop string_id)
two_calls =
    log_call false (both 1) 4096 (pos 1) hello ∷ log_call true (both 2) 4096 (pos 2) hello ∷ []

abbrev taken : List LogMsgQueueAny
taken = events_of (
    steps_of intern one_metadata (λ size. size)
      (log_msg_queue static_str static_str_interop string_id)
      (accepted intern one_metadata (λ size. size)
        (log_msg_queue static_str static_str_interop string_id) two_calls))

taken-length : length taken < 2 ^ 64
unfolding events_of steps_of accepted
taken-length = omega arith

taken-Fits : All (Fits (log_msg_queue static_str static_str_interop string_id)) taken
unfolding events_of steps_of accepted log_event
taken-Fits =
    events-Fits static_str static_str_interop string_id
      (log_static_str_event (record { desc = 4096; time = pos 2 }) ∷ [])
      (static_str-IsLayout 4096 (pos 2) (omega arith) (ground arith), tt)

handle_all-new_stream_example :
    (d : LogDispatch) × (before : List LogMsgQueueAny) × (current : List LogMsgQueueAny)
    × (handle_all intern one_metadata
          (λ size. size)
          (log_msg_queue static_str static_str_interop string_id)
          two_calls
          (record {
            logs_buffer_size = 1024;
            log_stream = new_stream (λ size. size) (at 0) 1024 1 2;
            on_log_calls = [];
            log_blocks = [];
          })
        ≡ ok d)
    × (d.on_log_calls
        ≡ calls_of intern one_metadata
            (λ size. size)
            (log_msg_queue static_str static_str_interop string_id)
            (accepted intern one_metadata
              (λ size. size)
              (log_msg_queue static_str static_str_interop string_id)
              two_calls))
    × (contents (log_msg_queue static_str static_str_interop string_id) d.log_blocks ≡ ok before)
    × (iter
          (log_msg_queue static_str static_str_interop string_id)
          d.log_stream.current_block.events
        ≡ ok current)
    × (before ++ current ≡ taken)
handle_all-new_stream_example =
    handle_all-new_stream intern one_metadata (λ size. size)
      (log_msg_queue static_str static_str_interop string_id) (at 0) 1024 1 2 two_calls taken-length
      taken-Fits
