-- ===== src/Sink/Http/Messages.antt =====
-- What the thread of rust/telemetry-sink/src/http_event_sink.rs posts for the messages that it takes,
-- and how it ends.
use micromegas.Prelude.{
  ◌+◌, ◌≡◌, refl, sym, ap, ◌∙◌, ℤ, pos, sub_i64, ltb_ℤ, Bool, true, false, List, [], ◌∷◌, ◌++◌,
  Option, none, some, Result, ok, err, if◌then◌else◌, append-nil, append_assoc,
}
use mathlib.Core.Path.{subst}
use micromegas.Sink.Http.{
  Payloads, SinkEvent, startup, init_stream, process_log_block, process_metrics_block,
  process_thread_block, Request, insert_process, insert_stream, insert_block, Action, thread_runs,
  waiting, handled, timed_out, returned, HttpEventSink, request, push_block, process_block,
  on_message, receive_from, thread_step, act, run,
}

module _ {t : Payloads} where
  -- The thread receives and counts a message for each in the channel, and receives once more.
  abbrev pub drain : List (SinkEvent t) → List (Action t)
  drain [] = thread_runs ∷ []
  drain (e ∷ es) = thread_runs ∷ thread_runs ∷ drain es

module _ {t : Payloads} (encode_bin : t.Block → t.ProcessInfo → Result t.Body)
    (max_queue_size : ℤ) where
  -- The request for a block: none before the startup message, for a queue that is too long, or for a
  -- block that cannot be encoded.
  abbrev encoded : Result t.Body → List (Request t)
  encoded (err failure) = []
  encoded (ok body) = insert_block body ∷ []

  abbrev pub block_request : Option t.ProcessInfo → ℤ → t.Block → List (Request t)
  block_request none queue_size block = []
  block_request (some info) queue_size block =
      if ltb_ℤ queue_size max_queue_size then encoded (encode_bin block info) else []

  -- The requests for one message, and the process that the thread knows behind it.
  unfoldable pub requests_by : SinkEvent t → Option t.ProcessInfo → ℤ → List (Request t)
  requests_by (startup info) known queue_size = insert_process info ∷ []
  requests_by (init_stream info) known queue_size = insert_stream info ∷ []
  requests_by (process_log_block block) known queue_size = block_request known queue_size block
  requests_by (process_metrics_block block) known queue_size = block_request known queue_size block
  requests_by (process_thread_block block) known queue_size = block_request known queue_size block

  unfoldable pub known_after : SinkEvent t → Option t.ProcessInfo → Option t.ProcessInfo
  known_after (startup info) known = some info
  known_after _ known = known

  abbrev pub posting : HttpEventSink t → List (Request t) → HttpEventSink t
  posting s rs = record s { requests = s.requests ++ rs }

  push_block-encoded :
      (block : t.Block) (info : t.ProcessInfo) (s : HttpEventSink t)
      → push_block encode_bin max_queue_size block info s
        ≡ posting s (block_request (some info) s.queue_size block)
  unfolding push_block
  push_block-encoded block info s = go (ltb_ℤ s.queue_size max_queue_size) (encode_bin block info)
    where
      go :
          (b : Bool) (r : Result t.Body)
          → (if b then elim r [ err e ↦ s | ok body ↦ request (insert_block body) s ] else s)
            ≡ posting s (if b then encoded r else [])
      go true (err e) = ap (λ rs. record s { requests = rs }) (sym (append-nil s.requests))
      go true (ok body) = refl
      go false r = ap (λ rs. record s { requests = rs }) (sym (append-nil s.requests))

  process_block_lem :
      (block : t.Block) (s : HttpEventSink t)
      → process_block encode_bin max_queue_size block s
        ≡ posting s (block_request s.opt_process_info s.queue_size block)
  unfolding process_block
  process_block_lem block s = go s.opt_process_info
    where
      go :
          (o : Option t.ProcessInfo)
          → (elim o [ none ↦ s | some info ↦ push_block encode_bin max_queue_size block info s ])
            ≡ posting s (block_request o s.queue_size block)
      go none = ap (λ rs. record s { requests = rs }) (sym (append-nil s.requests))
      go (some info) = push_block-encoded block info s

  pub on_message_lem :
      (e : SinkEvent t) (s : HttpEventSink t)
      → on_message encode_bin max_queue_size e s ≡ record s {
        opt_process_info = known_after e s.opt_process_info;
        requests = s.requests ++ requests_by e s.opt_process_info s.queue_size;
      }
  unfolding on_message requests_by known_after
  on_message_lem (startup info) s = refl
  on_message_lem (init_stream info) s = refl
  on_message_lem (process_log_block block) s = process_block_lem block s
  on_message_lem (process_metrics_block block) s = process_block_lem block s
  on_message_lem (process_thread_block block) s = process_block_lem block s

  -- The requests for the messages, in their order, where each message is taken off the counter.
  unfoldable pub requests_of : List (SinkEvent t) → Option t.ProcessInfo → ℤ → List (Request t)
  requests_of [] known queue_size = []
  requests_of (e ∷ es) known queue_size =
      requests_by e known queue_size
      ++ requests_of es (known_after e known) (sub_i64 queue_size (pos 1))

  receive_step :
      (s : HttpEventSink t) (messages : List (SinkEvent t))
      → s.channel ≡ messages
      → s.phase ≡ waiting
      → thread_step encode_bin max_queue_size s.phase s
        ≡ receive_from encode_bin max_queue_size messages s
  unfolding thread_step
  receive_step s messages e phase_is =
      ap (λ p. thread_step encode_bin max_queue_size p s) phase_is
      ∙ ap (λ ms. receive_from encode_bin max_queue_size ms s) e

  last_receive :
      (s : HttpEventSink t)
      → s.sender_open ≡ false
      → receive_from encode_bin max_queue_size [] s ≡ record s { phase = returned }
  unfolding receive_from
  last_receive s closed =
      ap
        (λ b.
          if b
          then record s { ticks = s.ticks + 1; phase = timed_out }
          else record s { phase = returned })
        closed

  -- The thread's state behind one message.
  abbrev behind : SinkEvent t → List (SinkEvent t) → HttpEventSink t → HttpEventSink t
  behind m rest s = record s {
    channel = rest;
    queue_size = sub_i64 s.queue_size (pos 1);
    phase = waiting;
    opt_process_info = known_after m s.opt_process_info;
    requests = s.requests ++ requests_by m s.opt_process_info s.queue_size;
  }

  one_message :
      (s : HttpEventSink t) (m : SinkEvent t) (rest : List (SinkEvent t))
      → thread_step encode_bin max_queue_size handled
          (receive_from encode_bin max_queue_size (m ∷ rest) s)
        ≡ behind m rest s
  unfolding thread_step receive_from
  one_message s m rest =
      ap
        (λ (x : HttpEventSink t). record x {
          queue_size = sub_i64 x.queue_size (pos 1);
          phase = waiting;
        })
        (on_message_lem m (record s { channel = rest }))

  abbrev Drained : List (SinkEvent t) → List (Action t) → HttpEventSink t → HttpEventSink t → Type 0
  Drained messages actions s from =
      ((run encode_bin max_queue_size actions from).phase ≡ returned)
      × ((run encode_bin max_queue_size actions from).channel ≡ [])
      × ((run encode_bin max_queue_size actions from).requests
          ≡ s.requests ++ requests_of messages s.opt_process_info s.queue_size)

  -- Once the sink is dropped, a thread that waits handles each of the messages that are left and
  -- returns, so that the join behind the drop ends: in a run of its two steps for each message and
  -- one more, with an empty channel, and with exactly the requests for those messages, in their order,
  -- behind those of before.
  pub drain-channel :
      (messages : List (SinkEvent t)) (s : HttpEventSink t)
      → s.channel ≡ messages
      → s.sender_open ≡ false
      → s.phase ≡ waiting
      → ((run encode_bin max_queue_size (drain messages) s).phase ≡ returned)
        × ((run encode_bin max_queue_size (drain messages) s).channel ≡ [])
        × ((run encode_bin max_queue_size (drain messages) s).requests
            ≡ s.requests ++ requests_of messages s.opt_process_info s.queue_size)
  unfolding run act requests_of receive_from
  drain-channel [] s e closed phase_is =
      let ends = receive_step s [] e phase_is ∙ last_receive s closed in
      (
        ap (λ x. x.phase) ends,
        ap (λ x. x.channel) ends ∙ e,
        ap (λ x. x.requests) ends ∙ sym (append-nil s.requests),
      )
  drain-channel (m ∷ rest) s e closed phase_is =
      let s1 = receive_from encode_bin max_queue_size (m ∷ rest) s in
      let (phase_is', channel_is', requests_are') =
        drain-channel rest (behind m rest s) refl closed refl in
      subst (λ x. Drained (m ∷ rest) (thread_runs ∷ drain rest) s x)
        (sym (receive_step s (m ∷ rest) e phase_is))
        (subst (λ x. Drained (m ∷ rest) (drain rest) s x) (sym (one_message s m rest))
          (
            phase_is',
            channel_is',
            requests_are'
                ∙ append_assoc s.requests (requests_by m s.opt_process_info s.queue_size) (
                    requests_of rest (known_after m s.opt_process_info)
                      (sub_i64 s.queue_size (pos 1))),
          ))
