-- ===== src/Analytics/LogEntry/Tests.antt =====
-- Concrete log events, from their queue to the entries of the analysis, and concrete thread events.
use micromegas.Prelude.{
  ℕ, ◌+◌, ◌<◌, ◌^◌, ◌≡◌, refl, ℤ, pos, IsI64, bits_of_i64, Bool, true, List, [], ◌∷◌, ◌++◌, map,
  Result, ok, length, length-append, append_assoc, All, HashMap, lookup, arith, add_i64, inl,
}
use micromegas.Transit.Bytes.{
  le_bytes, read_i64, length-le_bytes, read_any-le_bytes, read_i64-le_bytes,
}
use micromegas.Transit.Utf8.{is_utf8}
use micromegas.Transit.Value.{
  Value, string, object, u32, object_of, Object, no_members, member, get, get_u32, get_string,
  find_member,
}
use micromegas.Transit.Queue.{Queue, new, push_all}
use micromegas.Transit.Parser.Objects.{parse_object_buffer}
use micromegas.Transit.Parser.Objects.Encoded.{for_each}
use micromegas.Tracing.LogEvents.{
  LogMsgQueueAny, log_static_str_event, log_string_event, log_msg_queue,
}
use micromegas.Tracing.LogEvents.Laws.{EventFits}
use micromegas.Tracing.Tests.{string_id, static_str, static_str_interop, static_str-IsLayout}
use micromegas.Analytics.Time.{F64, ConvertTicks, from_meta_data}
use micromegas.Analytics.Columns.{Strings, AreIn}
use micromegas.Analytics.Columns.Counted.{counted, counted-HasEnough}
use micromegas.Analytics.Scope.{ScopeDesc}
use micromegas.Analytics.LogEntry.{LogEntry, on_log_value}
use micromegas.Analytics.LogEntry.Queued.{string_event_udt, static_str_udt}
use micromegas.Analytics.LogEntry.Entries.{
  Description, IsDescribed, IsAtOffsets, entry_of, log_entries-push_all,
}
use micromegas.Analytics.ThreadBlock.{ThreadEvent, begin_scope, end_scope, process_events}
use micromegas.Analytics.ThreadEvents.{
  ThreadEventsRecordBuilder, new_builder, thread_events_processor,
}
use micromegas.Analytics.ThreadEvents.Bounds.{IsWithin, process_events-IsWithin}

-- Floats that are integers.
abbrev whole : F64
whole = record {
  Float = ℤ;
  of_i64 = λ n. n;
  add = add_i64;
  mul = λ a b. a;
  div = λ a b. a;
  round = λ a. a;
  to_i64 = λ a. a;
}

abbrev whole_clock : ConvertTicks whole
whole_clock = from_meta_data whole (pos 0) (pos 0) (pos 1_000_000_000)

abbrev letter : ℕ → List ℕ
letter n = n ∷ []

abbrev info_object : Object
info_object = object_of "LogMetadataRecord" (
    member "level" (u32 4)
      (member "target" (string (letter 97)) (member "fmt_str" (string (letter 98)) no_members)))

abbrev info_description : ℕ → Description
info_description id = record {
  obj = info_object;
  level = 4;
  target = letter 97;
  fmt_str = letter 98;
}

abbrev one_dependency : HashMap Value
one_dependency = (4096, object info_object) ∷ []

info-IsDescribed : IsDescribed one_dependency info_description 4096
unfolding lookup get find_member get_u32 get_string
info-IsDescribed = record { found = refl; level = refl; target = refl; fmt_str = refl }

abbrev two_logs : List LogMsgQueueAny
two_logs =
    log_static_str_event (record { desc = 4096; time = pos 8 })
    ∷ log_string_event (record { desc = 4096; time = pos 9; dyn_str = letter 99 })
    ∷ []

letter-is_utf8 : is_utf8 (letter 99) ≡ true
unfolding is_utf8
letter-is_utf8 = refl

two_logs-Fit : All (EventFits static_str static_str_interop string_id) two_logs
two_logs-Fit = (
  static_str-IsLayout 4096 (pos 8) (omega arith) (omega arith),
  (
    record {
      desc_u64 = omega arith;
      time_i64 = omega arith;
      utf8 = letter-is_utf8;
      small = omega arith;
    },
    tt,
  ),
)

at_zero : (n : ℕ) → n + 0 ≡ n
at_zero n = omega arith

static_str-IsAtOffsets :
    (d : ℕ) (t : ℤ)
    → d < 256 ^ 8
    → IsI64 t
    → IsAtOffsets one_dependency info_description whole whole_clock static_str static_str_interop
        string_id 0 8
        (record { desc = d; time = t })
static_str-IsAtOffsets d t d_u64 t_i64 front back =
    let time = le_bytes 8 (bits_of_i64 t) in
    let at_time : read_i64 (front ++ (le_bytes 8 d ++ (time ++ back))) (length front + 8) ≡ ok t =
      rw (append_assoc, length-append, length-le_bytes) at
        (read_i64-le_bytes t (front ++ le_bytes 8 d) back t_i64) in
    (
      rw (append_assoc, at_zero (length front)) (read_any-le_bytes 8 d front (time ++ back) d_u64),
      rw append_assoc at_time,
    )

-- A callback that keeps the entries.
abbrev keep : LogEntry → List LogEntry → Result (Bool × List LogEntry)
keep e es = ok (true, es ++ e ∷ [])

log_entries-push_all_example :
    (q : Queue) × (push_all (log_msg_queue static_str static_str_interop string_id) two_logs new
      ≡ ok q)
    × (parse_object_buffer
          (λ bytes. bytes)
          1
          one_dependency
          (static_str_udt 16 0 8 ∷ string_event_udt ∷ [])
          q.buffer
          (on_log_value whole whole_clock keep)
          []
        ≡ for_each keep
            (map
              (entry_of one_dependency info_description whole whole_clock static_str
                static_str_interop string_id 0 8)
              two_logs)
            [])
log_entries-push_all_example =
    log_entries-push_all one_dependency info_description whole whole_clock static_str
      static_str_interop string_id 0 8 (λ bytes. bytes) 0 [] refl (omega arith) keep two_logs []
      two_logs-Fit
      (
        (info-IsDescribed, static_str-IsAtOffsets 4096 (pos 8) (omega arith) (omega arith)),
        (info-IsDescribed, tt),
      )

abbrev scope_a : ScopeDesc
scope_a = record { name = letter 97; filename = []; target = []; line = 1; hash = 5 }

abbrev thread_events : List ThreadEvent
thread_events =
    begin_scope (pos 0) scope_a (pos 10)
    ∷ end_scope (pos 1) scope_a (pos 20)
    ∷ begin_scope (pos 2) scope_a (pos 30)
    ∷ []

abbrev scope_strings : Strings
scope_strings = record { names = letter 97 ∷ []; targets = [] ∷ []; filenames = [] ∷ [] }

scope_a-AreIn : AreIn scope_strings scope_a.name scope_a.target scope_a.filename
scope_a-AreIn = (inl refl, inl refl, inl refl)

process_events-IsWithin_example :
    (b : ThreadEventsRecordBuilder whole) × (continue : Bool) × (process_events
        (thread_events_processor whole counted)
        "b1"
        thread_events
        (new_builder whole (pos 15) (pos 40) (pos 1) whole_clock)
      ≡ ok (b, continue))
    × IsWithin whole (pos 15) (pos 40) (pos 1) b
process_events-IsWithin_example =
    process_events-IsWithin whole (pos 15) (pos 40) (pos 1) (omega arith) counted counted-HasEnough
      scope_strings (omega arith, omega arith, omega arith) "b1" thread_events whole_clock
      (scope_a-AreIn, (scope_a-AreIn, (scope_a-AreIn, tt)))
