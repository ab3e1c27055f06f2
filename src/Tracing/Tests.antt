-- ===== src/Tracing/Tests.antt =====
-- Concrete log events, and the theorems on streams at concrete inputs.
use micromegas.Prelude.{
  ℕ, ◌+◌, ◌^◌, ◌<◌, ◌≤◌, ◌⊎◌, Option, some, ◌≡◌, refl, true, ℤ, pos, IsI64, bits_of_i64, List, [],
  ◌∷◌, ◌++◌, ok, ◌>>=◌, length, length-append, append_assoc, All, arith,
}
use micromegas.Transit.Bytes.{
  le_bytes, read_any, read_i64, length-le_bytes, read_any-le_bytes, read_i64-le_bytes,
}
use micromegas.Transit.Utf8.{is_utf8}
use micromegas.Transit.Queue.{Queue, new, nb_objects, push_all, iter}
use micromegas.Transit.Queue.Laws.{Fits, iter-push_all}
use micromegas.Tracing.LogEvents.{
  StringId, LogStaticStrEvent, LogStaticStrInteropEvent, Layout, LogMsgQueueAny,
  log_static_str_event, log_string_event, log_string_interop_event, log_msg_queue,
}
use micromegas.Tracing.LogEvents.Laws.{IsLayout, EventFits, events-Fits, iter-push_all_logs}
use micromegas.Tracing.Stream.{
  FlushTimes, EventBlock, EventStream, Step, event, flush, run, new_stream,
}
use micromegas.Tracing.Stream.Blocks.{contents, IsNumbered}
use micromegas.Tracing.Stream.Delivery.{events_of, run-new_stream}
use micromegas.Levels.LevelFilter.{LevelFilter}
use micromegas.Tracing.LogFilter.{
  access, exchange, returned, generation_of, level_filter, set_level_filter, map_or_not_set,
  run_threads,
}
use micromegas.Tracing.LogFilter.Threads.{start, ServedThread, PackedBy, run_threads-start}
use micromegas.Tracing.LogFilter.Sequential.{access-returns, level_filter-set_level_filter}
use micromegas.Levels.Level.{Level}
use micromegas.Tracing.Dependencies.{LogMetadata, extract}
use micromegas.Tracing.Dependencies.Recorded.{ids, IsDistinct, IsOrdered}
use micromegas.Tracing.Dependencies.Laws.{IsCovered, extract-IsDistinct}

-- Layouts with the fields in their order and no padding.
abbrev pub string_id : Layout StringId
string_id = record {
  size_of = 12;
  image = λ s. le_bytes 8 s.ptr ++ le_bytes 4 s.len;
  read = λ buffer ptr. (do
    p ← read_any 8 buffer ptr
    l ← read_any 4 buffer (ptr + 8)
    ok (record { ptr = p; len = l }));
}

abbrev pub static_str : Layout LogStaticStrEvent
static_str = record {
  size_of = 16;
  image = λ e. le_bytes 8 e.desc ++ le_bytes 8 (bits_of_i64 e.time);
  read = λ buffer ptr. (do
    d ← read_any 8 buffer ptr
    t ← read_i64 buffer (ptr + 8)
    ok (record { desc = d; time = t }));
}

abbrev pub static_str_interop : Layout LogStaticStrInteropEvent
static_str_interop = record {
  size_of = 36;
  image = λ e.
      le_bytes 8 (bits_of_i64 e.time)
      ++ (le_bytes 4 e.level ++ (string_id.image e.target ++ string_id.image e.msg));
  read = λ buffer ptr. (do
    t ← read_i64 buffer ptr
    l ← read_any 4 buffer (ptr + 8)
    target ← string_id.read buffer (ptr + 12)
    msg ← string_id.read buffer (ptr + 24)
    ok (record { time = t; level = l; target = target; msg = msg }));
}

string_id-IsLayout :
    (p l : ℕ) → p < 256 ^ 8 → l < 256 ^ 4 → IsLayout string_id (record { ptr = p; len = l })
string_id-IsLayout p l p_u64 l_u32 = record {
  size = omega (arith, length-append (le_bytes 8 p), length-le_bytes 8 p, length-le_bytes 4 l);
  read_back = λ front back.
      let at_len : read_any 4 (front ++ (le_bytes 8 p ++ (le_bytes 4 l ++ back))) (length front + 8)
          ≡ ok l =
        rw (append_assoc, length-append, length-le_bytes) at
          (read_any-le_bytes 4 l (front ++ le_bytes 8 p) back l_u32) in
      rw (append_assoc, read_any-le_bytes 8 p front (le_bytes 4 l ++ back) p_u64, at_len);
}

pub static_str-IsLayout :
    (d : ℕ) (t : ℤ) → d < 256 ^ 8 → IsI64 t → IsLayout static_str (record { desc = d; time = t })
static_str-IsLayout d t d_u64 t_i64 = record {
  size =
      omega (
        arith,
        length-append (le_bytes 8 d),
        length-le_bytes 8 d,
        length-le_bytes 8 (bits_of_i64 t),
      );
  read_back = λ front back.
      let time = le_bytes 8 (bits_of_i64 t) in
      let at_time : read_i64 (front ++ (le_bytes 8 d ++ (time ++ back))) (length front + 8) ≡ ok t =
        rw (append_assoc, length-append, length-le_bytes) at
          (read_i64-le_bytes t (front ++ le_bytes 8 d) back t_i64) in
      rw (append_assoc, read_any-le_bytes 8 d front (time ++ back) d_u64, at_time);
}

-- "hé" in UTF-8
abbrev he : List ℕ
he = 0x68 ∷ 0xc3 ∷ 0xa9 ∷ []

he-is_utf8 : is_utf8 he ≡ true
unfolding is_utf8
he-is_utf8 = refl

abbrev three_events : List LogMsgQueueAny
three_events =
    log_string_event (record { desc = 4096; time = pos 7; dyn_str = he })
    ∷ log_static_str_event (record { desc = 4096; time = pos 8 })
    ∷ log_string_interop_event
        (record { time = pos 9; level = 4; target = record { ptr = 64; len = 5 }; msg = he })
    ∷ []

three_events-Fits : All (EventFits static_str static_str_interop string_id) three_events
three_events-Fits = (
  record {
    desc_u64 = omega arith;
    time_i64 = ground arith;
    utf8 = he-is_utf8;
    small = omega arith;
  },
  (
    static_str-IsLayout 4096 (pos 8) (omega arith) (ground arith),
    (
      record {
        time_i64 = ground arith;
        level_u32 = omega arith;
        target_layout = string_id-IsLayout 64 5 (omega arith) (omega arith);
        utf8 = he-is_utf8;
        small = omega arith;
      },
      tt,
    ),
  ),
)

iter-push_all_logs_example :
    (q : Queue) × (push_all (log_msg_queue static_str static_str_interop string_id) three_events new
      ≡ ok q)
    × (nb_objects q ≡ length three_events)
    × (iter (log_msg_queue static_str static_str_interop string_id) q ≡ ok three_events)
iter-push_all_logs_example =
    iter-push_all_logs static_str static_str_interop string_id three_events three_events-Fits

iter-push_all_example :
    (q : Queue) × (push_all (log_msg_queue static_str static_str_interop string_id) three_events new
      ≡ ok q)
    × (nb_objects q ≡ length three_events)
    × (iter (log_msg_queue static_str static_str_interop string_id) q ≡ ok three_events)
iter-push_all_example =
    iter-push_all (log_msg_queue static_str static_str_interop string_id) three_events
      (events-Fits static_str static_str_interop string_id three_events three_events-Fits)

abbrev flush_at : ℕ → FlushTimes
flush_at n = record {
  begin = record { ticks = pos n; time = pos n };
  end = record { ticks = pos n; time = pos n };
}

-- Two events, of which the first is flushed.
abbrev two_steps : List (Step LogMsgQueueAny)
two_steps =
    event (flush_at 1) (log_static_str_event (record { desc = 4096; time = pos 7 }))
    ∷ flush (flush_at 2)
    ∷ event (flush_at 3) (log_static_str_event (record { desc = 4096; time = pos 8 }))
    ∷ []

two_steps-Fits :
    All (Fits (log_msg_queue static_str static_str_interop string_id)) (events_of two_steps)
unfolding events_of
two_steps-Fits =
    events-Fits static_str static_str_interop string_id
      (log_static_str_event (record { desc = 4096; time = pos 7 })
        ∷ log_static_str_event (record { desc = 4096; time = pos 8 })
        ∷ [])
      (
        static_str-IsLayout 4096 (pos 7) (omega arith) (ground arith),
        (static_str-IsLayout 4096 (pos 8) (omega arith) (ground arith), tt),
      )

run-new_stream_example :
    (stream : EventStream) × (sent : List EventBlock) × (before : List LogMsgQueueAny)
    × (current : List LogMsgQueueAny) × (run
          (λ size. size)
          (log_msg_queue static_str static_str_interop string_id)
          1024
          two_steps
          (new_stream (λ size. size) (record { ticks = pos 0; time = pos 0 }) 1024 1 2, [])
        ≡ ok (stream, sent))
    × (contents (log_msg_queue static_str static_str_interop string_id) sent ≡ ok before)
    × (iter (log_msg_queue static_str static_str_interop string_id) stream.current_block.events
        ≡ ok current)
    × (before ++ current ≡ events_of two_steps)
    × IsNumbered 0 sent (length before)
    × (stream.current_block.event_offset ≡ length before)
unfolding events_of
run-new_stream_example =
    run-new_stream (λ size. size) (log_msg_queue static_str static_str_interop string_id) 1024
      (record { ticks = pos 0; time = pos 0 }) 1 2 two_steps (omega arith) two_steps-Fits

-- Two threads that set the filter at the generations 2 and 1, and a schedule in which the exchange of
-- the second one fails.
abbrev two_requests : List (ℕ × Option LevelFilter)
two_requests = (2, some LevelFilter.debug) ∷ (1, some LevelFilter.info) ∷ []

abbrev schedule : List ℕ
schedule = 0 ∷ 1 ∷ 0 ∷ 1 ∷ []

run_threads-start_example :
    (generation_of 15 ≤ generation_of (run_threads schedule (start two_requests) 15).0)
    × All
        (ServedThread (run_threads schedule (start two_requests) 15).0)
        (run_threads schedule (start two_requests) 15).1
    × (((run_threads schedule (start two_requests) 15).0 ≡ 15)
        ⊎ PackedBy (start two_requests) (run_threads schedule (start two_requests) 15).0)
run_threads-start_example =
    run_threads-start schedule two_requests 15 (omega arith, (omega arith, tt))

level_filter-set_level_filter_example :
    ((generation_of 15 < 3)
      × (level_filter 3 (set_level_filter 3 (some LevelFilter.warn) 15)
          ≡ map_or_not_set (some LevelFilter.warn)))
    ⊎ ((3 ≤ generation_of 15) × (set_level_filter 3 (some LevelFilter.warn) 15 ≡ 15))
level_filter-set_level_filter_example =
    level_filter-set_level_filter 3 (some LevelFilter.warn) 15 (omega arith)

access-returns_example :
    (access 2
      (some LevelFilter.warn)
      (access 2 (some LevelFilter.warn) (exchange 14) 15).1
      (access 2 (some LevelFilter.warn) (exchange 14) 15).0).1
    ≡ returned
access-returns_example = access-returns 2 (some LevelFilter.warn) (exchange 14) 15

-- One metadata, whose target and module path are the same string.
abbrev pub one_metadata : ℕ → LogMetadata
one_metadata log_ptr = record {
  level = Level.info;
  fmt_str = record { len = 2; ptr = 100 };
  target = record { len = 3; ptr = 200 };
  module_path = record { len = 3; ptr = 200 };
  file = record { len = 7; ptr = 300 };
  line = 12;
}

extract-IsDistinct_example :
    IsDistinct (ids (extract one_metadata three_events))
    × IsOrdered (extract one_metadata three_events)
    × All (IsCovered (extract one_metadata three_events)) three_events
extract-IsDistinct_example =
    extract-IsDistinct one_metadata three_events
      ((refl, refl, refl, refl), ((refl, refl, refl, refl), (tt, tt)))
