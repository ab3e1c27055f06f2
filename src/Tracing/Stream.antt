-- ===== src/Tracing/Stream.antt =====
-- Event streams and their blocks (rust/tracing/src/event/stream.rs, rust/tracing/src/event/block.rs),
-- and how rust/tracing/src/dispatch.rs fills and flushes them. The capacity that a `Vec` gets for a
-- requested size is an argument; the tags and properties of a stream are left out.
pub mod Blocks
pub mod Delivery
use micromegas.Prelude.{
  ℕ, ◌+◌, ◌-◌, ◌%◌, ◌^◌, ℤ, Bool, true, false, not, List, [], ◌∷◌, ◌++◌, Option, none, some, Result,
  ok, panic, guard, ◌>>=◌, ◌>>◌, ltb, ◌==◌, if◌then◌else◌,
}
use micromegas.Transit.Queue
use micromegas.Transit.Queue.{QueueTypes, Queue, len_bytes, nb_objects}

-- `DualTime`: ticks, and nanoseconds since the epoch
pub record DualTime : Type 0 where
  pub ticks : ℤ
  pub time : ℤ

-- The two times that a flush reads: the begin of the new block, then the end of the old one.
pub record FlushTimes : Type 0 where
  pub begin : DualTime
  pub end : DualTime

pub record EventBlock : Type 0 where
  pub process_id : ℕ
  pub stream_id : ℕ
  pub begin : DualTime
  pub events : Queue
  pub capacity_bytes : ℕ
  pub end : Option DualTime
  pub event_offset : ℕ

pub record EventStream : Type 0 where
  pub process_id : ℕ
  pub stream_id : ℕ
  pub current_block : EventBlock
  pub full_threshold : ℕ

abbrev hint_max_obj_size : ℕ
hint_max_obj_size = 128

-- `buffer_size - max_obj_size` on `usize`
abbrev threshold : ℕ → ℕ
threshold size = (size + 2 ^ 64 - hint_max_obj_size) % 2 ^ 64

-- `EventBlock::close`
abbrev pub close : DualTime → EventBlock → EventBlock
close now block = record block { end = some now }

abbrev pub set_full : EventStream → EventStream
set_full stream = record stream { full_threshold = 0 }

-- The stream with the new block, and the old block.
unfoldable pub replace_block : EventBlock → EventStream → EventStream × EventBlock
replace_block new_block stream = (
  record stream { full_threshold = threshold new_block.capacity_bytes; current_block = new_block },
  stream.current_block,
)

unfoldable pub is_full : EventStream → Bool
is_full stream = ltb stream.full_threshold (len_bytes stream.current_block.events)

unfoldable pub is_empty : EventStream → Bool
is_empty stream = len_bytes stream.current_block.events == 0

-- What happens to a stream: an event, a flush that somebody asks for, or the mark of the flush
-- monitor that makes the next event flush.
pub data Step (A : Type 0) : Type 0 where
  event : FlushTimes → A → Step A
  flush : FlushTimes → Step A
  mark_full : Step A

module _ (with_capacity : ℕ → ℕ) where
  -- `TracingBlock::new`
  unfoldable pub new_block : DualTime → ℕ → ℕ → ℕ → ℕ → EventBlock
  new_block now buffer_size process_id stream_id event_offset = record {
    process_id = process_id;
    stream_id = stream_id;
    begin = now;
    events = Queue.new;
    capacity_bytes = with_capacity buffer_size;
    end = none;
    event_offset = event_offset;
  }

  -- `EventStream::new`
  unfoldable pub new_stream : DualTime → ℕ → ℕ → ℕ → EventStream
  unfolding new_block
  new_stream now buffer_size process_id stream_id = record {
    process_id = process_id;
    stream_id = stream_id;
    current_block = new_block now buffer_size process_id stream_id 0;
    full_threshold = threshold buffer_size;
  }

  -- `flush_log_buffer`, `flush_metrics_buffer` and `flush_thread_buffer`: the stream behind the flush,
  -- and the blocks that the sink has got so far.
  unfoldable pub flush_buffer :
      FlushTimes → ℕ → EventStream × List EventBlock → Result (EventStream × List EventBlock)
  unfolding replace_block
  flush_buffer now buffer_size (stream, sent) =
      let next_offset =
        (stream.current_block.event_offset + nb_objects stream.current_block.events) % 2 ^ 64 in
      let (stream', old_event_block) =
        replace_block
          (new_block now.begin buffer_size stream.process_id stream.stream_id next_offset) stream in
      if is_empty stream then ok (stream, sent) else (do
        guard (not (is_full stream')) panic
        ok (stream', sent ++ close now.end old_event_block ∷ []))

  module _ {A : Type 0} (d : QueueTypes A) where
    -- What `int_metric`, `float_metric`, `log`, `log_interop` and `on_thread_event` do with an event.
    unfoldable pub record_event :
        FlushTimes → ℕ → A → EventStream × List EventBlock → Result (EventStream × List EventBlock)
    record_event now buffer_size value (stream, sent) = do
      events ← Queue.push d value stream.current_block.events
      let stream' = record stream {
        current_block = record stream.current_block { events = events };
      }
      let flushed = flush_buffer now buffer_size (stream', sent)
      if is_full stream' then flushed else ok (stream', sent)

    unfoldable pub step :
        ℕ → Step A → EventStream × List EventBlock → Result (EventStream × List EventBlock)
    step buffer_size (event now v) s = record_event now buffer_size v s
    step buffer_size (flush now) s = flush_buffer now buffer_size s
    step buffer_size mark_full (stream, sent) = ok (set_full stream, sent)

    unfoldable pub run :
        ℕ → List (Step A) → EventStream × List EventBlock → Result (EventStream × List EventBlock)
    run buffer_size [] s = ok s
    run buffer_size (t ∷ ts) s = do s' ← step buffer_size t s; run buffer_size ts s'
