-- ===== src/Analytics/LogEntry/Queued.antt =====
-- From the log events in a queue (rust/tracing/src/logs/events.rs) to the log entries that
-- rust/analytics/src/log_entry.rs finds in its bytes: the events with a static and with a formatted
-- text, which refer to a description.
use micromegas.Prelude.{
  ℕ, suc, ◌+◌, ◌-◌, ◌<◌, ◌%◌, ◌^◌, ◌≡◌, refl, ap, true, false, List, [], ◌∷◌, ◌++◌, some, ok,
  >>=-eq-ok, length, HashMap, arith,
}
use micromegas.Transit.Bytes.{read_any, read_i64}
use micromegas.Transit.Strings.{read_dyn_string}
use micromegas.Transit.Value.{
  UserDefinedType, Value, string, object, i64, object_of, no_members, member, Members,
}
use micromegas.Transit.Parser.{
  dependency_or_none, parse_pod_instance, parse_members, parse_member, finish_instance,
}
use micromegas.Transit.Parser.Custom.{
  sub_as_u32, parse_log_string_event, parse_custom_instance, custom_members,
}
use micromegas.Tracing.LogEvents.{
  LogStringEvent, LogStaticStrEvent, write_string_event, read_string_event,
}
use micromegas.Tracing.LogEvents.Laws.{StringFits, read_string_event_lem, length-write_string_event}

size_as_u32 : (n : ℕ) → 16 + n < 2 ^ 32 → sub_as_u32 (16 + n) 16 ≡ (16 + n + 2 ^ 32 - 16) % 2 ^ 32
size_as_u32 n h = omega arith

-- `LogStringEvent::reflect`
abbrev pub string_event_udt : UserDefinedType
string_event_udt = record { name = "LogStringEvent"; size = 0; members = []; is_reference = false }

-- What `derive(TransitReflect)` makes of `LogStaticStrEvent`, where the compiler puts its members at
-- `desc_offset` and `time_offset`.
abbrev pub static_str_udt : ℕ → ℕ → ℕ → UserDefinedType
static_str_udt size desc_offset time_offset = record {
  name = "LogStaticStrEvent";
  size = size;
  members =
      record {
        name = "desc";
        type_name = "& 'static LogMetadata < 'static >";
        offset = desc_offset;
        size = 8;
        is_reference = true;
      }
      ∷ record {
        name = "time";
        type_name = "i64";
        offset = time_offset;
        size = 8;
        is_reference = false;
      }
      ∷ [];
  is_reference = false;
}

module _ (dependencies : HashMap Value) where
  abbrev pub string_event_members : LogStringEvent → Members
  string_event_members e = member "time" (i64 e.time) (
      member "msg" (string e.dyn_str)
        (member "desc" (dependency_or_none e.desc dependencies) no_members))

  abbrev pub static_str_members : LogStaticStrEvent → Members
  static_str_members e =
      member "desc" (dependency_or_none e.desc dependencies) (member "time" (i64 e.time) no_members)

  -- The parser reads the bytes that `LogStringEvent::read_value` reads.
  parse_log_string_event-read :
      (e : LogStringEvent) (offset n : ℕ) (buffer : List ℕ)
      → 16 + n < 2 ^ 32
      → read_string_event buffer offset (some (16 + n)) ≡ ok e
      → parse_log_string_event dependencies offset (16 + n) buffer ≡ ok (string_event_members e)
  unfolding parse_log_string_event read_string_event
  parse_log_string_event-read e offset n buffer small h =
      let (desc, e1, r1) = >>=-eq-ok (read_any 8 buffer offset) _ h in
      let (time, e2, r2) = >>=-eq-ok (read_i64 buffer (offset + 8)) _ r1 in
      let (msg, e3, r3) =
        >>=-eq-ok (read_dyn_string buffer (offset + 16) (some ((16 + n + 2 ^ 32 - 16) % 2 ^ 32))) _
          r2 in
      let event_ : LogStringEvent = record { desc = desc; time = time; dyn_str = msg } in
      let same : event_ ≡ e = cc in
      rw (e1, e2, size_as_u32 n small, e3) (ap (λ x. ok (string_event_members x)) same)

  module _ (from_utf16_lossy : List ℕ → List ℕ) (depth : ℕ) (udts : List UserDefinedType) where
    pub parse_custom_instance-string_event :
        (e : LogStringEvent) (front back : List ℕ)
        → StringFits e
        → parse_custom_instance from_utf16_lossy depth udts dependencies
            (front ++ (write_string_event e [] ++ back))
            string_event_udt
            (length front)
            (length (write_string_event e []))
          ≡ ok (object (object_of "LogStringEvent" (string_event_members e)))
    unfolding parse_custom_instance custom_members
    parse_custom_instance-string_event e front back fits =
        rw
          (
            length-write_string_event e,
            parse_log_string_event-read e (length front) (length e.dyn_str)
                (front ++ (write_string_event e [] ++ back)) fits.small
                (read_string_event_lem e front back fits),
          )
          refl

    -- A plain object with the members of `LogStaticStrEvent`.
    pub parse_pod_instance-static_str :
        (e : LogStaticStrEvent) (buffer : List ℕ) (size at desc_offset time_offset : ℕ)
        → read_any 8 buffer (at + desc_offset) ≡ ok e.desc
        → read_i64 buffer (at + time_offset) ≡ ok e.time
        → parse_pod_instance udts dependencies buffer
            (suc depth)
            (static_str_udt size desc_offset time_offset)
            at
          ≡ ok (object (object_of "LogStaticStrEvent" (static_str_members e)))
    unfolding parse_pod_instance parse_members parse_member finish_instance
    parse_pod_instance-static_str e buffer size at desc_offset time_offset desc time =
        rw (desc, time) refl
