-- ===== src/Sink/Http.antt =====
-- The sink that sends telemetry over HTTP, rust/telemetry-sink/src/http_event_sink.rs: the counter and
-- the channel that its handlers share with its thread, and the loop of the thread, as steps that
-- interleave. A request is recorded where the thread makes it; its outcome is only logged. The
-- encoding of blocks is an argument.
pub mod Messages
pub mod Laws
mod Tests
use micromegas.Prelude.{
  ℕ, suc, ◌+◌, ℤ, pos, add_i64, sub_i64, ltb_ℤ, Bool, true, false, List, [], ◌∷◌, ◌++◌, Option,
  none, some, Result, ok, err, if◌then◌else◌,
}

-- The types of what is sent.
pub record Payloads : Type 1 where
  pub ProcessInfo : Type 0
  pub StreamInfo : Type 0
  pub Block : Type 0
  pub Body : Type 0

module _ (t : Payloads) where
  pub data SinkEvent : Type 0 where
    startup : t.ProcessInfo → SinkEvent
    init_stream : t.StreamInfo → SinkEvent
    process_log_block : t.Block → SinkEvent
    process_metrics_block : t.Block → SinkEvent
    process_thread_block : t.Block → SinkEvent

  -- What the thread posts to the server.
  pub data Request : Type 0 where
    insert_process : t.ProcessInfo → Request
    insert_stream : t.StreamInfo → Request
    insert_block : t.Body → Request

  -- What happens next: a handler calls `send`, the handler in `send` takes a step, the sink is dropped,
  -- or the thread takes a step.
  pub data Action : Type 0 where
    send_event : SinkEvent → Action
    sender_runs : Action
    drop_sink : Action
    thread_runs : Action

  -- Where the handler that holds the lock of the sender stands: there is none, it has counted the
  -- message, or the channel has refused the message.
  pub data Sending : Type 0 where
    unlocked : Sending
    counted : SinkEvent → Sending
    refused : Sending

-- Where the thread stands: in `recv_timeout`, behind a message, behind a receive that timed out, or
-- returned.
pub data Phase : Type 0 where
  waiting handled timed_out returned : Phase

abbrev pub is_returned : Phase → Bool
is_returned waiting = false
is_returned handled = false
is_returned timed_out = false
is_returned returned = true

-- `HttpEventSink` and the variables of its thread. `ticks` counts the calls of the flush
-- monitor, and `vain` how often the thread took one off the counter behind a receive that timed out.
pub record HttpEventSink (t : Payloads) : Type 0 where
  pub sender_open : Bool
  pub sending : Sending t
  pub channel : List (SinkEvent t)
  pub queue_size : ℤ
  pub phase : Phase
  pub opt_process_info : Option t.ProcessInfo
  pub requests : List (Request t)
  pub ticks : ℕ
  pub vain : ℕ

module _ {t : Payloads} where
  -- `new`, with the thread at its loop.
  abbrev pub new_sink : HttpEventSink t
  new_sink = record {
    sender_open = true;
    sending = unlocked;
    channel = [];
    queue_size = pos 0;
    phase = waiting;
    opt_process_info = none;
    requests = [];
    ticks = 0;
    vain = 0;
  }

  -- `fetch_add(1)` and `fetch_sub(1)` on the `AtomicIsize`, which wrap around.
  abbrev pub fetch_add : HttpEventSink t → HttpEventSink t
  fetch_add s = record s { queue_size = add_i64 s.queue_size (pos 1) }

  abbrev pub fetch_sub : HttpEventSink t → HttpEventSink t
  fetch_sub s = record s { queue_size = sub_i64 s.queue_size (pos 1) }

  -- `send` up to the increment, by who holds the lock: a handler waits for it.
  unfoldable pub send : Sending t → SinkEvent t → HttpEventSink t → HttpEventSink t
  send unlocked e s = if s.sender_open then record (fetch_add s) { sending = counted e } else s
  send (counted e') e s = s
  send refused e s = s

  -- The rest of `send`: the message goes into the channel, which refuses it once the thread has
  -- returned; the increment is then taken back.
  unfoldable pub send_step : Sending t → HttpEventSink t → HttpEventSink t
  send_step unlocked s = s
  send_step (counted e) s =
      if is_returned s.phase
      then record s { sending = refused }
      else record s { channel = s.channel ++ e ∷ []; sending = unlocked }
  send_step refused s = record (fetch_sub s) { sending = unlocked }

  -- `drop` closes the channel, under the lock, before it waits for the thread.
  unfoldable pub close : Sending t → HttpEventSink t → HttpEventSink t
  close unlocked s = record s { sender_open = false }
  close (counted e) s = s
  close refused s = s

  -- `is_busy`
  abbrev pub is_busy : HttpEventSink t → Bool
  is_busy s = ltb_ℤ (pos 0) s.queue_size

  abbrev pub request : Request t → HttpEventSink t → HttpEventSink t
  request r s = record s { requests = s.requests ++ r ∷ [] }

  module _ (encode_bin : t.Block → t.ProcessInfo → Result t.Body) (max_queue_size : ℤ) where
    unfoldable pub push_block : t.Block → t.ProcessInfo → HttpEventSink t → HttpEventSink t
    push_block block process_info s =
        if ltb_ℤ s.queue_size max_queue_size
        then elim (encode_bin block process_info) [
          | err e ↦ s
          | ok body ↦ request (insert_block body) s
        ]
        else s

    -- A block before the startup message is only logged.
    unfoldable pub process_block : t.Block → HttpEventSink t → HttpEventSink t
    process_block block s = elim s.opt_process_info [
      | none ↦ s
      | some process_info ↦ push_block block process_info s
    ]

    -- The `match` on a message in `thread_proc_impl`.
    unfoldable pub on_message : SinkEvent t → HttpEventSink t → HttpEventSink t
    on_message (startup process_info) s =
        request (insert_process process_info) (record s { opt_process_info = some process_info })
    on_message (init_stream stream_info) s = request (insert_stream stream_info) s
    on_message (process_log_block block) s = process_block block s
    on_message (process_metrics_block block) s = process_block block s
    on_message (process_thread_block block) s = process_block block s

    -- `recv_timeout` and what follows it up to the end of the loop's body: a message, no message in
    -- time, or a closed channel.
    unfoldable pub receive_from : List (SinkEvent t) → HttpEventSink t → HttpEventSink t
    receive_from (e ∷ rest) s = record (on_message e (record s { channel = rest })) {
      phase = handled;
    }
    receive_from [] s =
        if s.sender_open
        then record s { ticks = s.ticks + 1; phase = timed_out }
        else record s { phase = returned }

    -- One step of the thread: the receive, or the `fetch_sub` at the end of the loop's body.
    unfoldable pub thread_step : Phase → HttpEventSink t → HttpEventSink t
    thread_step waiting s = receive_from s.channel s
    thread_step handled s = record (fetch_sub s) { phase = waiting }
    thread_step timed_out s = record (fetch_sub s) { phase = waiting; vain = s.vain + 1 }
    thread_step returned s = s

    unfoldable pub act : Action t → HttpEventSink t → HttpEventSink t
    act (send_event e) s = send s.sending e s
    act sender_runs s = send_step s.sending s
    act drop_sink s = close s.sending s
    act thread_runs s = thread_step s.phase s

    unfoldable pub run : List (Action t) → HttpEventSink t → HttpEventSink t
    run [] s = s
    run (a ∷ as_) s = run as_ (act a s)
