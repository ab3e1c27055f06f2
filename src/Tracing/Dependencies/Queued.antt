-- ===== src/Tracing/Dependencies/Queued.antt =====
-- The queue of the dependencies of log events (`LogDepsQueue` of rust/tracing/src/logs/block.rs) with
-- `StaticString` (rust/transit/src/static_string.rs), and what the parser of rust/transit/src/
-- parser.rs reads from it. The text at an address is an argument.
use micromegas.Prelude.{
  ℕ, ◌+◌, ◌-◌, ◌<◌, ◌%◌, ◌^◌, ◌≡◌, refl, true, leb, List, [], ◌∷◌, ◌++◌, Option, none, some, Result,
  ok, panic, or_fail, guard, ◌>>=◌, ◌>>◌, length, length-append, append_assoc, arith,
}
use micromegas.Transit.Bytes.{le_bytes, write_any, read_any, length-le_bytes, read_any-le_bytes}
use micromegas.Transit.Utf8.{is_utf8}
use micromegas.Transit.Queue.{InProcSerialize, QueueTypes}
use micromegas.Tracing.LogEvents.{Layout, pod, custom}
use micromegas.Tracing.Dependencies.{
  StaticString, LogMetadataRecord, LogDep, static_string, log_metadata_record,
}

-- `StaticString::get_value_size`, `write_value` and `read_value`
unfoldable pub static_string_size : StaticString → ℕ
static_string_size s = (s.len + 8) % 2 ^ 32

unfoldable pub read_static_string_value : List ℕ → ℕ → Option ℕ → Result StaticString
read_static_string_value buffer ptr value_size = do
  size ← or_fail value_size panic
  guard (leb 8 size) panic
  static_buffer_ptr ← read_any 8 buffer ptr
  ok (record { len = size - 8; ptr = static_buffer_ptr })

module _ (text_at : StaticString → List ℕ) where
  unfoldable pub write_static_string : StaticString → List ℕ → List ℕ
  unfolding write_any
  write_static_string s buffer = write_any 8 s.ptr buffer ++ text_at s

  abbrev as_static_string : LogDep → Option StaticString
  as_static_string (static_string s) = some s
  as_static_string (log_metadata_record r) = none

  abbrev as_metadata : LogDep → Option LogMetadataRecord
  as_metadata (static_string s) = none
  as_metadata (log_metadata_record r) = some r

  abbrev pub log_dep_index : LogDep → ℕ
  log_dep_index (static_string s) = 0
  log_dep_index (log_metadata_record r) = 1

  module _ (metadata : Layout LogMetadataRecord) where
    abbrev serialize_static_string : InProcSerialize LogDep
    serialize_static_string =
        custom static_string as_static_string static_string_size write_static_string
          read_static_string_value

    abbrev serialize_metadata : InProcSerialize LogDep
    serialize_metadata = pod log_metadata_record as_metadata metadata

    abbrev log_dep_serializer : LogDep → InProcSerialize LogDep
    log_dep_serializer (static_string s) = serialize_static_string
    log_dep_serializer (log_metadata_record r) = serialize_metadata

    -- `LogDepsQueue`
    abbrev pub log_deps_queue : QueueTypes LogDep
    log_deps_queue = record {
      type_index = log_dep_index;
      serializer = log_dep_serializer;
      types = serialize_static_string ∷ serialize_metadata ∷ [];
    }

    -- A string fits if its text is UTF-8 of the length that it says, below 4 GB.
    pub record StaticFits (s : StaticString) : Type 0 where
      pub ptr_u64 : s.ptr < 256 ^ 8
      pub text_length : length (text_at s) ≡ s.len
      pub utf8 : is_utf8 (text_at s) ≡ true
      pub small : s.len + 8 < 2 ^ 32

    pub length-write_static_string :
        (s : StaticString) → StaticFits s → length (write_static_string s []) ≡ s.len + 8
    unfolding write_static_string write_any
    length-write_static_string s fits = omega (
      arith,
      length-append (le_bytes 8 s.ptr) (text_at s),
      length-le_bytes 8 s.ptr,
      fits.text_length,
    )

    pub read_static_string_value_lem :
        (s : StaticString) (front back : List ℕ)
        → StaticFits s
        → read_static_string_value
            (front ++ (write_static_string s [] ++ back))
            (length front)
            (some (s.len + 8))
          ≡ ok s
    unfolding read_static_string_value write_static_string write_any
    read_static_string_value_lem s front back fits =
        let at_ptr = read_any-le_bytes 8 s.ptr front (text_at s ++ back) fits.ptr_u64 in
        let enough : leb 8 (s.len + 8) ≡ true = ground arith in
        let len : s.len + 8 - 8 ≡ s.len = omega arith in rw (enough, append_assoc, at_ptr, len) refl
