-- ===== src/Analytics/ThreadEvents.antt =====
-- rust/analytics/src/thread_events_table.rs: the rows of the thread events in a time range. The
-- columns of the arrow builders are one list of rows.
pub mod Bounds
use micromegas.Prelude.{
  ℤ, pos, add_i64, ltb_ℤ, not, ◌≤ℤ◌, ◌≡◌, refl, String, Bool, true, false, List, [], ◌∷◌, ◌++◌,
  Result, ok, ◌>>=◌, ◌>>◌, if◌then◌else◌, length, length-append, All, All-append, IsI64, pos_part,
  ℕ, suc, ◌+◌, ◌<◌, ◌≤◌, ◌^◌, negsuc, i64_of_bits, bits_of_i64, Bool-cases, inl, inr, arith,
}
use micromegas.Levels.Names.{codes}
use micromegas.Analytics.Columns.{
  HasKey, HasEnough, Strings, HaveKeys, AreIn, IsIn, keys_i8, keys_i16, append_value,
  append_value-ok,
}
use micromegas.Analytics.Scope.{ScopeDesc}
use micromegas.Analytics.Time.{F64, ConvertTicks, ticks_to_nanoseconds}
use micromegas.Analytics.ThreadBlock.{
  ThreadBlockProcessor, ThreadEvent, begin_scope, end_scope, on_event, process_events,
}

pub record ThreadEventRow : Type 0 where
  pub id : ℤ
  pub event_type : String
  pub timestamp : ℤ
  pub hash : ℕ
  pub name : List ℕ
  pub target : List ℕ
  pub filename : List ℕ
  pub line : ℕ
  pub block_id : String

-- `a >= b` and `a > b` on `i64`
abbrev geb_ℤ : ℤ → ℤ → Bool
geb_ℤ a b = not (ltb_ℤ a b)

abbrev gtb_ℤ : ℤ → ℤ → Bool
gtb_ℤ a b = ltb_ℤ b a

module _ (f : F64) where
  pub record ThreadEventsRecordBuilder : Type 0 where
    pub begin_query_ns : ℤ
    pub end_query_ns : ℤ
    pub limit : ℤ
    pub nb_rows : ℤ
    pub convert_ticks : ConvertTicks f
    pub rows : List ThreadEventRow

  -- `new`
  abbrev pub new_builder : ℤ → ℤ → ℤ → ConvertTicks f → ThreadEventsRecordBuilder
  new_builder begin_query_ns end_query_ns limit convert_ticks = record {
    begin_query_ns = begin_query_ns;
    end_query_ns = end_query_ns;
    limit = limit;
    nb_rows = pos 0;
    convert_ticks = convert_ticks;
    rows = [];
  }

  abbrev pub event_row : String → ℤ → String → ScopeDesc → ℤ → ThreadEventRow
  event_row block_id event_id event_type scope time = record {
    id = event_id;
    event_type = event_type;
    timestamp = time;
    hash = scope.hash;
    name = scope.name;
    target = scope.target;
    filename = scope.filename;
    line = scope.line;
    block_id = block_id;
  }

  -- The counter and the columns behind a row.
  unfoldable pub append_row :
      HasKey → ThreadEventRow → ThreadEventsRecordBuilder → Result ThreadEventsRecordBuilder
  append_row has_key row b = do
    append_value has_key keys_i8 (λ (r : ThreadEventRow). codes r.event_type) b.rows
        (codes row.event_type)
    append_value has_key keys_i16 (λ (r : ThreadEventRow). r.name) b.rows row.name
    append_value has_key keys_i16 (λ (r : ThreadEventRow). r.target) b.rows row.target
    append_value has_key keys_i16 (λ (r : ThreadEventRow). r.filename) b.rows row.filename
    append_value has_key keys_i16 (λ (r : ThreadEventRow). codes r.block_id) b.rows
        (codes row.block_id)
    ok (record b { nb_rows = add_i64 b.nb_rows (pos 1); rows = b.rows ++ row ∷ [] })

  unfoldable pub process_event :
      HasKey
      → String
      → String
      → ℤ
      → ScopeDesc
      → ℤ
      → ThreadEventsRecordBuilder
      → Result (ThreadEventsRecordBuilder × Bool)
  process_event has_key event_type block_id event_id scope ts b =
      let time = ticks_to_nanoseconds f b.convert_ticks ts in
      let appended = (do
        b' ← append_row has_key (event_row block_id event_id event_type scope time) b
        ok (b', ltb_ℤ b'.nb_rows b'.limit)) in
      if geb_ℤ b.nb_rows b.limit
      then ok (b, false)
      else if ltb_ℤ time b.begin_query_ns
      then ok (b, true)
      else if gtb_ℤ time b.end_query_ns
      then ok (b, false)
      else appended

  -- `impl ThreadBlockProcessor for ThreadEventsRecordBuilder`
  abbrev pub thread_events_processor : HasKey → ThreadBlockProcessor ThreadEventsRecordBuilder
  thread_events_processor has_key = record {
    on_begin_thread_scope = process_event has_key "begin";
    on_end_thread_scope = process_event has_key "end";
  }
