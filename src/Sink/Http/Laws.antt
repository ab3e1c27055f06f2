-- ===== src/Sink/Http/Laws.antt =====
-- What the counter of rust/telemetry-sink/src/http_event_sink.rs counts.
use micromegas.Prelude.{ℕ, ◌+◌, ◌≤◌, ◌≡◌, ℤ, sub_ℕ, length}
use micromegas.Sink.Http.{
  Payloads, Sending, unlocked, counted, refused, Phase, waiting, handled, timed_out, returned,
  HttpEventSink,
}

-- A message that the thread has handled and not yet taken off the counter.
abbrev pub in_hand : Phase → ℕ
in_hand waiting = 0
in_hand handled = 1
in_hand timed_out = 0
in_hand returned = 0

-- A message that is counted and not in the channel: not yet, or refused.
abbrev pub announced : {t : Payloads} → Sending t → ℕ
announced unlocked = 0
announced (counted e) = 1
announced refused = 1

abbrev pub pending : {t : Payloads} → HttpEventSink t → ℕ
pending s = length s.channel + in_hand s.phase + announced s.sending

-- The counter is the number of pending messages less the number of times that it was taken down in
-- vain, and both stay within the number of steps.
abbrev Counted : ℕ → ℤ → ℕ → ℕ → Type 0
Counted n q m v = (q ≡ sub_ℕ m v) × (m + v ≤ n)

module _ {t : Payloads} where
  abbrev IsCounted : ℕ → HttpEventSink t → Type 0
  IsCounted n s = Counted n s.queue_size (pending s) s.vain
