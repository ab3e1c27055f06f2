-- ===== src/Analytics/LogEntry/Entries.antt =====
-- From pushing log events (rust/tracing/src/logs/block.rs) to the entries that
-- rust/analytics/src/log_entry.rs finds in the block.
use micromegas.Prelude.{
  ℕ, suc, ◌+◌, ◌<◌, ◌^◌, ◌≡◌, refl, ◌∙◌, ℤ, Bool, false, List, [], ◌∷◌, ◌++◌, map, some, Result, ok,
  ◌==◌, length, All, HashMap, lookup, arith,
}
use micromegas.Transit.Bytes.{read_any, read_i64}
use micromegas.Transit.Value.{
  UserDefinedType, Value, object, no_value, Object, object_of, find_member, get, get_u32, get_i64,
  get_object, get_string,
}
use micromegas.Transit.Queue.{Queue, new, push_all}
use micromegas.Transit.Parser.{dependency_or_none}
use micromegas.Transit.Parser.Objects.{parse_object_buffer}
use micromegas.Transit.Parser.Objects.Encoded.{for_each, Parses, and_then_cong}
use micromegas.Transit.Parser.Objects.Laws.{parse_object_buffer-push_all}
use micromegas.Tracing.LogEvents.{
  StringId, LogStaticStrEvent, LogStringEvent, LogStaticStrInteropEvent, Layout, LogMsgQueueAny,
  log_static_str_event, log_string_event, log_static_str_interop_event, log_string_interop_event,
  log_msg_queue,
}
use micromegas.Tracing.LogEvents.Laws.{EventFits, events-Fits, length-write_string_event}
use micromegas.Analytics.Time.{F64, ConvertTicks, ticks_to_nanoseconds}
use micromegas.Analytics.LogEntry.{LogEntry, as_i32, log_entry_from_value, on_log_value}
use micromegas.Analytics.LogEntry.Queued.{
  string_event_udt, static_str_udt, string_event_members, static_str_members,
  parse_custom_instance-string_event, parse_pod_instance-static_str,
}

-- What a dependency says of the events that refer to it.
pub record Description : Type 0 where
  pub obj : Object
  pub level : ℕ
  pub target : List ℕ
  pub fmt_str : List ℕ

module _ (dependencies : HashMap Value) (desc_at : ℕ → Description) where
  pub record IsDescribed (id : ℕ) : Type 0 where
    pub found : lookup id dependencies ≡ some (object (desc_at id).obj)
    pub level : get get_u32 "level" (desc_at id).obj ≡ ok (desc_at id).level
    pub target : get get_string "target" (desc_at id).obj ≡ ok (desc_at id).target
    pub fmt_str : get get_string "fmt_str" (desc_at id).obj ≡ ok (desc_at id).fmt_str

  described :
      (id : ℕ) → IsDescribed id → dependency_or_none id dependencies ≡ object (desc_at id).obj
  unfolding dependency_or_none
  described id d = rw (dependency_or_none, d.found) refl

  module _ (f : F64) (convert_ticks : ConvertTicks f) where
    entry_at : ℕ → ℤ → List ℕ → LogEntry
    entry_at id time msg = record {
      time = ticks_to_nanoseconds f convert_ticks time;
      level = as_i32 (desc_at id).level;
      target = (desc_at id).target;
      msg = msg;
    }

    log_entry-string_event :
        (e : LogStringEvent)
        → IsDescribed e.desc
        → log_entry_from_value f convert_ticks
            (object (object_of "LogStringEvent" (string_event_members dependencies e)))
          ≡ ok (some (entry_at e.desc e.time e.dyn_str))
    unfolding log_entry_from_value get find_member get_i64 get_object get_string entry_at
    log_entry-string_event e d = rw (described e.desc d, d.level, d.target) refl

    log_entry-static_str :
        (e : LogStaticStrEvent)
        → IsDescribed e.desc
        → log_entry_from_value f convert_ticks
            (object (object_of "LogStaticStrEvent" (static_str_members dependencies e)))
          ≡ ok (some (entry_at e.desc e.time (desc_at e.desc).fmt_str))
    unfolding log_entry_from_value get find_member get_i64 get_object get_string entry_at
    log_entry-static_str e d = rw (described e.desc d, d.level, d.target, d.fmt_str) refl

    -- The events that refer to a description, with what the compiler promises of a static one.
    module _ (static_str : Layout LogStaticStrEvent)
        (static_str_interop : Layout LogStaticStrInteropEvent) (string_id : Layout StringId)
        (desc_offset time_offset : ℕ) where
      -- The members stand at their offsets in the memory of an event.
      abbrev pub IsAtOffsets : LogStaticStrEvent → Type 0
      IsAtOffsets e =
          (front back : List ℕ)
          → (read_any 8 (front ++ (static_str.image e ++ back)) (length front + desc_offset)
              ≡ ok e.desc)
            × (read_i64 (front ++ (static_str.image e ++ back)) (length front + time_offset)
                ≡ ok e.time)

      abbrev pub HasDescription : LogMsgQueueAny → Type 0
      HasDescription (log_static_str_event e) = IsDescribed e.desc × IsAtOffsets e
      HasDescription (log_string_event e) = IsDescribed e.desc
      HasDescription (log_static_str_interop_event e) = ⊥
      HasDescription (log_string_interop_event e) = ⊥

      value_of : LogMsgQueueAny → Value
      value_of (log_static_str_event e) =
          object (object_of "LogStaticStrEvent" (static_str_members dependencies e))
      value_of (log_string_event e) =
          object (object_of "LogStringEvent" (string_event_members dependencies e))
      value_of (log_static_str_interop_event e) = no_value
      value_of (log_string_interop_event e) = no_value

      -- The entry of an event: its own time, and its own text or that of its description. The events
      -- without a description are in none of the lists below.
      unfoldable pub entry_of : LogMsgQueueAny → LogEntry
      unfolding entry_at
      entry_of (log_static_str_event e) = entry_at e.desc e.time (desc_at e.desc).fmt_str
      entry_of (log_string_event e) = entry_at e.desc e.time e.dyn_str
      entry_of (log_static_str_interop_event e) = entry_at 0 e.time []
      entry_of (log_string_interop_event e) = entry_at 0 e.time []

      module _ (from_utf16_lossy : List ℕ → List ℕ) (depth : ℕ) (rest : List UserDefinedType)
          (sized : (static_str.size_of == 0) ≡ false) (small : static_str.size_of < 2 ^ 32) where
        -- The types of the stream, by their indices in the queue.
        abbrev udts : List UserDefinedType
        udts = static_str_udt static_str.size_of desc_offset time_offset ∷ string_event_udt ∷ rest

        value_of-Parses :
            (v : LogMsgQueueAny)
            → EventFits static_str static_str_interop string_id v
            → HasDescription v
            → Parses from_utf16_lossy
                (suc depth)
                dependencies
                udts
                (log_msg_queue static_str static_str_interop string_id)
                value_of
                v
        unfolding value_of
        value_of-Parses (log_static_str_event e) fits (d, places) = record {
          udt = static_str_udt static_str.size_of desc_offset time_offset;
          described = refl;
          small = omega (arith, fits.size, small);
          decodes = (
            refl,
            sized,
            λ front back.
                let (at_desc, at_time) = places front back in
                parse_pod_instance-static_str dependencies from_utf16_lossy depth udts e _
                  static_str.size_of (length front) desc_offset time_offset at_desc at_time,
          );
        }
        value_of-Parses (log_string_event e) fits d = record {
          udt = string_event_udt;
          described = refl;
          small = omega (arith, length-write_string_event e, fits.small);
          decodes = (
            refl,
            λ front back.
                parse_custom_instance-string_event dependencies from_utf16_lossy (suc depth) udts e
                  front back fits,
          );
        }
        value_of-Parses (log_static_str_interop_event e) fits h = elim h [ ]
        value_of-Parses (log_string_interop_event e) fits h = elim h [ ]

        events-Parse :
            (events : List LogMsgQueueAny)
            → All (EventFits static_str static_str_interop string_id) events
            → All HasDescription events
            → All
                (Parses from_utf16_lossy
                  (suc depth)
                  dependencies
                  udts
                  (log_msg_queue static_str static_str_interop string_id)
                  value_of)
                events
        events-Parse [] fits described = tt
        events-Parse (v ∷ vs) (fit, fits) (d, ds) =
            (value_of-Parses v fit d, events-Parse vs fits ds)

        module _ {S : Type 0} (fun : LogEntry → S → Result (Bool × S)) where
          on_log_value-value_of :
              (v : LogMsgQueueAny) (s : S)
              → HasDescription v
              → on_log_value f convert_ticks fun (value_of v) s ≡ fun (entry_of v) s
          unfolding on_log_value value_of entry_of
          on_log_value-value_of (log_static_str_event e) s (d, places) =
              rw (log_entry-static_str e d) refl
          on_log_value-value_of (log_string_event e) s d = rw (log_entry-string_event e d) refl
          on_log_value-value_of (log_static_str_interop_event e) s h = elim h [ ]
          on_log_value-value_of (log_string_interop_event e) s h = elim h [ ]

          for_each-value_of :
              (vs : List LogMsgQueueAny) (s : S)
              → All HasDescription vs
              → for_each (on_log_value f convert_ticks fun) (map value_of vs) s
                ≡ for_each fun (map entry_of vs) s
          unfolding for_each
          for_each-value_of [] s h = refl
          for_each-value_of (v ∷ vs) s (d, ds) =
              rw (on_log_value-value_of v s d)
                (and_then_cong (fun (entry_of v) s) _ _ λ s'. for_each-value_of vs s' ds)

          -- Log events with static and with formatted texts, in any order, whose values are in the
          -- ranges of their machine types and whose descriptions are among the dependencies: pushing
          -- them never fails, and over the bytes of the queue the analysis calls its callback on the
          -- entry of each event in the order of the pushes, with the event's time in nanoseconds, the
          -- level and target of its description and its text, until the callback answers `false` or
          -- fails.
          pub log_entries-push_all :
              (events : List LogMsgQueueAny) (s : S)
              → All (EventFits static_str static_str_interop string_id) events
              → All HasDescription events
              → (q : Queue) × (push_all
                    (log_msg_queue static_str static_str_interop string_id)
                    events
                    new
                  ≡ ok q)
                × (parse_object_buffer from_utf16_lossy
                      (suc depth)
                      dependencies
                      udts
                      q.buffer
                      (on_log_value f convert_ticks fun)
                      s
                    ≡ for_each fun (map entry_of events) s)
          log_entries-push_all events s fits described =
              let (q, pushed, parsed) =
                parse_object_buffer-push_all from_utf16_lossy (suc depth) dependencies udts
                  (log_msg_queue static_str static_str_interop string_id) value_of
                  (on_log_value f convert_ticks fun) events s
                  (events-Fits static_str static_str_interop string_id events fits)
                  (events-Parse events fits described) in
              (q, pushed, parsed ∙ for_each-value_of events s described)
