-- ===== src/Sink/Http/Tests.antt =====
-- Concrete runs of the HTTP sink.
use micromegas.Prelude.{ℕ, none, ◌≡◌, refl, pos, false, List, [], ◌∷◌, Result, ok}
use micromegas.Sink.Http.{
  Payloads, SinkEvent, startup, process_log_block, Action, send_event, sender_runs, thread_runs,
  returned, HttpEventSink, new_sink, run,
}
use micromegas.Sink.Http.Messages.{drain, requests_of, drain-channel}

-- Everything that is sent is a number.
abbrev numbers : Payloads
numbers = record { ProcessInfo = ℕ; StreamInfo = ℕ; Block = ℕ; Body = ℕ }

abbrev encode : ℕ → ℕ → Result ℕ
encode block process_info = ok block

abbrev in_vain : List (Action numbers)
in_vain =
    thread_runs
    ∷ thread_runs
    ∷ send_event (startup 7)
    ∷ sender_runs
    ∷ send_event (process_log_block 1)
    ∷ []

abbrev two_messages : List (SinkEvent numbers)
two_messages = startup 7 ∷ process_log_block 1 ∷ []

-- A dropped sink with two messages left.
abbrev dropped : HttpEventSink numbers
dropped = record new_sink { sender_open = false; channel = two_messages; queue_size = pos 2 }

abbrev drained : HttpEventSink numbers
drained = run {t = numbers} encode (pos 10) (drain two_messages) dropped

drain-channel_example :
    (drained.phase ≡ returned)
    × (drained.channel ≡ [])
    × (drained.requests ≡ requests_of {t = numbers} encode (pos 10) two_messages none (pos 2))
drain-channel_example =
    drain-channel {t = numbers} encode (pos 10) two_messages dropped refl refl refl
