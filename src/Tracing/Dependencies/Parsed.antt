-- ===== src/Tracing/Dependencies/Parsed.antt =====
-- What rust/transit/src/parser.rs reads from the dependencies that `extract` of
-- rust/tracing/src/logs/block.rs pushes.
use micromegas.Prelude.{
  ℕ, suc, ◌+◌, ◌<◌, ◌%◌, ◌-◌, ◌^◌, ◌≡◌, refl, sym, ap, true, false, String, List, [], ◌∷◌, ◌++◌,
  some, Result, ok, ◌==◌, length, append_assoc, length-append, HashMap, arith,
}
use micromegas.Transit.Bytes.{
  le_bytes, write_any, read_any, window, window-append, length-le_bytes, read_any-le_bytes,
}
use micromegas.Transit.Utf8.{from_utf8}
use micromegas.Transit.Value.{
  Member, UserDefinedType, Value, string, object, u32, u64, object_of, no_members, member, Members,
  get, get_u64, find_member,
}
use micromegas.Transit.Queue.Laws.{Fits}
use micromegas.Transit.Parser.{
  dependency_or_none, parse_pod_instance, parse_members, parse_member, finish_instance,
}
use micromegas.Transit.Parser.Dependencies.{
  insert_new, read_static_string, read_instance, read_dependency,
}
use micromegas.Transit.Parser.Dependencies.Encoded.{Loads}
use micromegas.Tracing.LogEvents.{Layout}
use micromegas.Tracing.LogEvents.Laws.{IsLayout}
use micromegas.Tracing.Dependencies.{
  StaticString, LogMetadataRecord, LogDep, static_string, log_metadata_record,
}
use micromegas.Tracing.Dependencies.Queued.{
  static_string_size, write_static_string, log_deps_queue, StaticFits, length-write_static_string,
  read_static_string_value_lem,
}

-- Where the compiler puts the members of `LogMetadataRecord`.
pub record Offsets : Type 0 where
  pub id : ℕ
  pub fmt_str : ℕ
  pub target : ℕ
  pub module_path : ℕ
  pub file : ℕ
  pub line : ℕ
  pub level : ℕ

abbrev pub static_string_udt : UserDefinedType
static_string_udt = record { name = "StaticString"; size = 0; members = []; is_reference = false }

abbrev text_member : String → ℕ → Member
text_member name offset = record {
  name = name;
  type_name = "* const u8";
  offset = offset;
  size = 8;
  is_reference = true;
}

-- What `derive(TransitReflect)` makes of `LogMetadataRecord`.
abbrev pub metadata_udt : ℕ → Offsets → UserDefinedType
metadata_udt size at = record {
  name = "LogMetadataRecord";
  size = size;
  members =
      record { name = "id"; type_name = "u64"; offset = at.id; size = 8; is_reference = false }
      ∷ text_member "fmt_str" at.fmt_str
      ∷ text_member "target" at.target
      ∷ text_member "module_path" at.module_path
      ∷ text_member "file" at.file
      ∷ record {
        name = "line";
        type_name = "u32";
        offset = at.line;
        size = 4;
        is_reference = false;
      }
      ∷ record {
        name = "level";
        type_name = "u32";
        offset = at.level;
        size = 4;
        is_reference = false;
      }
      ∷ [];
  is_reference = false;
}

-- The object of a record, where `hash` has the strings in front of it.
abbrev pub metadata_members : HashMap Value → LogMetadataRecord → Members
metadata_members hash r = member "id" (u64 r.id) (
    member "fmt_str" (dependency_or_none r.fmt_str hash) (
      member "target" (dependency_or_none r.target hash) (
        member "module_path" (dependency_or_none r.module_path hash) (
          member "file" (dependency_or_none r.file hash)
            (member "line" (u32 r.line) (member "level" (u32 r.level) no_members))))))

-- The types of the stream of dependencies, by their indices in the queue.
abbrev pub dep_udts : ℕ → Offsets → List UserDefinedType → List UserDefinedType
dep_udts size at rest = static_string_udt ∷ metadata_udt size at ∷ rest

module _ (text_at : StaticString → List ℕ) (metadata : Layout LogMetadataRecord)
    (at : Offsets) where
  abbrev pub value_of_dep : LogDep → HashMap Value → Value
  value_of_dep (static_string s) hash = string (text_at s)
  value_of_dep (log_metadata_record r) hash =
      object (object_of "LogMetadataRecord" (metadata_members hash r))

  abbrev pub load : LogDep → HashMap Value → Result (HashMap Value)
  load (static_string s) hash = insert_new s.ptr (value_of_dep (static_string s) hash) hash
  load (log_metadata_record r) hash =
      insert_new r.id (value_of_dep (log_metadata_record r) hash) hash

  -- The members stand at their offsets in the memory of a record.
  pub record IsAtOffsets (r : LogMetadataRecord) (bytes : List ℕ) (start : ℕ) : Type 0 where
    pub id : read_any 8 bytes (start + at.id) ≡ ok r.id
    pub fmt_str : read_any 8 bytes (start + at.fmt_str) ≡ ok r.fmt_str
    pub target : read_any 8 bytes (start + at.target) ≡ ok r.target
    pub module_path : read_any 8 bytes (start + at.module_path) ≡ ok r.module_path
    pub file : read_any 8 bytes (start + at.file) ≡ ok r.file
    pub line : read_any 4 bytes (start + at.line) ≡ ok r.line
    pub level : read_any 4 bytes (start + at.level) ≡ ok r.level

  -- What the memory of a record promises.
  pub record RecordFits (r : LogMetadataRecord) : Type 0 where
    pub layout : IsLayout metadata r
    pub members :
        (front back : List ℕ) → IsAtOffsets r (front ++ (metadata.image r ++ back)) (length front)

  abbrev pub DepFits : LogDep → Type 0
  DepFits (static_string s) = StaticFits text_at metadata s
  DepFits (log_metadata_record r) = RecordFits r

  pub dep-Fits : (v : LogDep) → DepFits v → Fits (log_deps_queue text_at metadata) v
  unfolding static_string_size
  dep-Fits (static_string s) fits = record {
    indexed = refl;
    encodes = (
      s.len + 8,
      ap some (omega (arith, fits.small)),
      omega (arith, fits.small),
      length-write_static_string text_at metadata s fits,
      λ front back. rw (read_static_string_value_lem text_at metadata s front back fits) refl,
    );
  }
  dep-Fits (log_metadata_record r) fits = record {
    indexed = refl;
    encodes = (fits.layout.size, λ front back. rw (fits.layout.read_back front back) refl);
  }

  module _ (from_utf16_lossy : List ℕ → List ℕ) (depth : ℕ) (rest : List UserDefinedType)
      (sized : (metadata.size_of == 0) ≡ false) where
    minus_8 : (n : ℕ) → n + 8 < 2 ^ 32 → (n + 8 + 2 ^ 64 - 8) % 2 ^ 64 ≡ n
    minus_8 n h = omega arith

    read_static_string_lem :
        (s : StaticString) (front back : List ℕ) (hash : HashMap Value)
        → StaticFits text_at metadata s
        → read_static_string from_utf16_lossy
            (suc depth)
            (dep_udts metadata.size_of at rest)
            (front ++ (write_static_string text_at s [] ++ back))
            (length front)
            (s.len + 8)
            hash
          ≡ insert_new s.ptr (string (text_at s)) hash
    unfolding read_static_string write_static_string write_any from_utf8
    read_static_string_lem s front back hash fits =
        let le = le_bytes 8 s.ptr in
        let text = text_at s in
        let at_ptr = read_any-le_bytes 8 s.ptr front (text ++ back) fits.ptr_u64 in
        let at_text : window (front ++ (le ++ (text ++ back))) (length front + 8) s.len
            ≡ some text =
          rw (append_assoc, length-append, length-le_bytes, fits.text_length) at
            (window-append (front ++ le) text back) in
        rw (append_assoc, at_ptr, minus_8 s.len fits.small, at_text, fits.utf8) refl

    read_metadata_lem :
        (r : LogMetadataRecord) (bytes : List ℕ) (start size : ℕ) (hash : HashMap Value)
        → IsAtOffsets r bytes start
        → read_dependency from_utf16_lossy
            (suc depth)
            (dep_udts metadata.size_of at rest)
            bytes
            (metadata_udt metadata.size_of at)
            start
            size
            hash
          ≡ load (log_metadata_record r) hash
    unfolding read_dependency read_instance parse_pod_instance parse_members parse_member
        finish_instance get find_member get_u64
    read_metadata_lem r bytes start size hash h =
        rw (sized, h.id, h.fmt_str, h.target, h.module_path, h.file, h.line, h.level) refl

    pub dep-Loads :
        (v : LogDep)
        → DepFits v
        → Loads from_utf16_lossy
            (suc depth)
            (dep_udts metadata.size_of at rest)
            (log_deps_queue text_at metadata)
            load
            v
    unfolding read_dependency
    dep-Loads (static_string s) fits = record {
      udt = static_string_udt;
      described = refl;
      sized = (refl, omega (arith, length-write_static_string text_at metadata s fits, fits.small));
      loads = λ front back hash.
          rw (length-write_static_string text_at metadata s fits)
            (read_static_string_lem s front back hash fits);
    }
    dep-Loads (log_metadata_record r) fits = record {
      udt = metadata_udt metadata.size_of at;
      described = refl;
      sized = (sized, sym fits.layout.size);
      loads = λ front back hash.
          read_metadata_lem r _ (length front) (length (metadata.image r)) hash
            (fits.members front back);
    }
