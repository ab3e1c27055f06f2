-- ===== src/Tracing/Dependencies/Tests.antt =====
-- The dependencies of a concrete log event, from its queue to the map that the parser reads.
use micromegas.Prelude.{
  ℕ, zero, suc, ◌+◌, ◌<◌, ◌^◌, ◌≡◌, refl, sym, true, List, [], ◌∷◌, ◌++◌, ok, ◌>>=◌, length,
  length-append, append_assoc, arith, All, pos,
}
use micromegas.Transit.Bytes.{le_bytes, read_any, read_any-le_bytes}
use micromegas.Transit.Utf8.{is_utf8}
use micromegas.Transit.Queue.{Queue, new, push_all}
use micromegas.Transit.Parser.Dependencies.{read_dependencies}
use micromegas.Tracing.LogEvents.{Layout, LogMsgQueueAny, log_static_str_event}
use micromegas.Tracing.Dependencies.{
  StaticString, LogMetadataRecord, record_of, LogMetadata, extract, extract_events, extract_event,
  record_log_event_dependencies, add_strings, add_string, contains,
}
use micromegas.Tracing.Dependencies.Queued.{log_deps_queue, StaticFits}
use micromegas.Tracing.Dependencies.Parsed.{Offsets, DepFits, IsAtOffsets, RecordFits, dep_udts}
use micromegas.Tracing.Dependencies.Resolved.{
  in_order, hash_of, IsResolved, HasTexts, read_dependencies-extract,
}
use micromegas.Levels.Level.{Level}

-- One metadata, whose target and module path are the same string.
abbrev info_metadata : ℕ → LogMetadata
info_metadata log_ptr = record {
  level = Level.info;
  fmt_str = record { len = 2; ptr = 100 };
  target = record { len = 3; ptr = 200 };
  module_path = record { len = 3; ptr = 200 };
  file = record { len = 1; ptr = 300 };
  line = 12;
}

abbrev one_event : List LogMsgQueueAny
one_event = log_static_str_event (record { desc = 4096; time = pos 8 }) ∷ []

-- Texts that repeat a letter.
abbrev letters : ℕ → List ℕ
letters zero = []
letters (suc n) = 120 ∷ letters n

abbrev letters_at : StaticString → List ℕ
letters_at s = letters s.len

-- The members of a record in their order, with no padding.
abbrev packed : Offsets
packed = record {
  id = 0;
  fmt_str = 8;
  target = 16;
  module_path = 24;
  file = 32;
  line = 40;
  level = 44;
}

abbrev packed_record : Layout LogMetadataRecord
packed_record = record {
  size_of = 48;
  image = λ r.
      le_bytes 8 r.id
      ++ le_bytes 8 r.fmt_str
      ++ le_bytes 8 r.target
      ++ le_bytes 8 r.module_path
      ++ le_bytes 8 r.file
      ++ le_bytes 4 r.line
      ++ le_bytes 4 r.level;
  read = λ buffer ptr. (do
    id ← read_any 8 buffer (ptr + 0)
    fmt_str ← read_any 8 buffer (ptr + 8)
    target ← read_any 8 buffer (ptr + 16)
    module_path ← read_any 8 buffer (ptr + 24)
    file ← read_any 8 buffer (ptr + 32)
    line ← read_any 4 buffer (ptr + 40)
    level ← read_any 4 buffer (ptr + 44)
    ok (record {
      id = id;
      fmt_str = fmt_str;
      target = target;
      module_path = module_path;
      file = file;
      line = line;
      level = level;
    }));
}

abbrev info_record : LogMetadataRecord
info_record = record_of 4096 (info_metadata 4096)

read_field :
    (n v : ℕ) (front before after back bytes : List ℕ)
    → bytes ≡ before ++ (le_bytes n v ++ after)
    → v < 256 ^ n
    → read_any n (front ++ (bytes ++ back)) (length front + length before) ≡ ok v
read_field n v front before after back bytes e h =
    rw
      (
        e,
        append_assoc before (le_bytes n v ++ after) back,
        append_assoc (le_bytes n v) after back,
        sym (append_assoc front before (le_bytes n v ++ (after ++ back))),
        sym (length-append front before),
      )
      (read_any-le_bytes n v (front ++ before) (after ++ back) h)

abbrev word : ℕ → List ℕ
word n = le_bytes 8 n

info_record-IsAtOffsets :
    (front back : List ℕ)
    → IsAtOffsets letters_at packed_record packed info_record
        (front ++ (packed_record.image info_record ++ back))
        (length front)
unfolding le_bytes
info_record-IsAtOffsets front back =
    let bytes = packed_record.image info_record in
    record {
      id = read_field 8 4096 front [] _ back bytes refl (omega arith);
      fmt_str = read_field 8 100 front (word 4096) _ back bytes refl (omega arith);
      target = read_field 8 200 front (word 4096 ++ word 100) _ back bytes refl (omega arith);
      module_path =
          read_field 8 200 front (word 4096 ++ word 100 ++ word 200) _ back bytes refl
            (omega arith);
      file =
          read_field 8 300 front (word 4096 ++ word 100 ++ word 200 ++ word 200) _ back bytes refl
            (omega arith);
      line =
          read_field 4 12 front (word 4096 ++ word 100 ++ word 200 ++ word 200 ++ word 300) _ back
            bytes refl (omega arith);
      level =
          read_field 4 info_record.level front
            (word 4096 ++ word 100 ++ word 200 ++ word 200 ++ word 300 ++ le_bytes 4 12) [] back
            bytes refl (omega arith);
    }

info_record-size : length (packed_record.image info_record) ≡ 48
unfolding le_bytes
info_record-size = refl

info_record-RecordFits : RecordFits letters_at packed_record packed info_record
info_record-RecordFits = record {
  layout = record { size = info_record-size; read_back = reads };
  members = info_record-IsAtOffsets;
}
  where
    reads :
        (front back : List ℕ)
        → packed_record.read (front ++ (packed_record.image info_record ++ back)) (length front)
          ≡ ok info_record
    reads front back =
        let h = info_record-IsAtOffsets front back in
        rw (h.id, h.fmt_str, h.target, h.module_path, h.file, h.line, h.level) refl

text-StaticFits :
    (len ptr : ℕ)
    → ptr < 256 ^ 8
    → length (letters len) ≡ len
    → is_utf8 (letters len) ≡ true
    → len + 8 < 2 ^ 32
    → StaticFits letters_at packed_record (record { len = len; ptr = ptr })
text-StaticFits len ptr ptr_u64 text_length utf8 small = record {
  ptr_u64 = ptr_u64;
  text_length = text_length;
  utf8 = utf8;
  small = small;
}

one_event-DepFits : All (DepFits letters_at packed_record packed) (extract info_metadata one_event)
unfolding is_utf8 extract extract_events extract_event record_log_event_dependencies add_strings
    add_string contains
one_event-DepFits = (
  info_record-RecordFits,
  (
    text-StaticFits 1 300 (omega arith) refl refl (omega arith),
    (
      text-StaticFits 3 200 (omega arith) refl refl (omega arith),
      (text-StaticFits 2 100 (omega arith) refl refl (omega arith), tt),
    ),
  ),
)

read_dependencies-extract_example :
    (q : Queue) × (push_all
        (log_deps_queue letters_at packed_record)
        (in_order (extract info_metadata one_event))
        new
      ≡ ok q)
    × (read_dependencies (λ bytes. bytes) 1 (dep_udts 48 packed []) q.buffer
        ≡ ok (hash_of letters_at packed_record packed (extract info_metadata one_event)))
    × All
        (IsResolved letters_at packed_record packed
          (hash_of letters_at packed_record packed (extract info_metadata one_event)))
        one_event
    × HasTexts letters_at packed_record packed (extract info_metadata one_event)
read_dependencies-extract_example =
    read_dependencies-extract letters_at packed_record packed (λ bytes. bytes) 0 [] refl
      info_metadata one_event ((refl, refl, refl, refl), tt) one_event-DepFits
