-- ===== src/Analytics/ThreadEvents/Bounds.antt =====
-- How many rows rust/analytics/src/thread_events_table.rs makes, and which times they have.
use micromegas.Prelude.{
  ℤ, pos, add_i64, ltb_ℤ, ◌≤ℤ◌, ◌≡◌, refl, String, Bool, true, false, List, [], ◌∷◌, ◌++◌, Result,
  ok, if◌then◌else◌, length, length-append, All, All-append, IsI64, pos_part, ℕ, suc, ◌+◌, ◌<◌, ◌≤◌,
  ◌^◌, negsuc, i64_of_bits, bits_of_i64, Bool-cases, inl, inr, arith,
}
use micromegas.Levels.Names.{codes}
use micromegas.Analytics.Columns.{
  HasKey, HasEnough, Strings, HaveKeys, AreIn, IsIn, keys_i8, keys_i16, append_value-ok,
}
use micromegas.Analytics.Scope.{ScopeDesc}
use micromegas.Analytics.Time.{F64, ConvertTicks, ticks_to_nanoseconds}
use micromegas.Analytics.ThreadBlock.{ThreadEvent, begin_scope, end_scope, on_event, process_events}
use micromegas.Analytics.ThreadEvents.{
  ThreadEventRow, ThreadEventsRecordBuilder, new_builder, event_row, append_row, process_event,
  thread_events_processor,
}

module _ (f : F64) where
  abbrev pub IsInRange : ℤ → ℤ → ThreadEventRow → Type 0
  IsInRange begin_ns end_ns row = (begin_ns ≤ℤ row.timestamp) × (row.timestamp ≤ℤ end_ns)

  add_i64-one : (n : ℕ) → suc n < 2 ^ 63 → add_i64 (pos n) (pos 1) ≡ pos (n + 1)
  unfolding add_i64 i64_of_bits bits_of_i64
  add_i64-one n h = ground arith

  not_below : (a b : ℤ) → ltb_ℤ a b ≡ false → b ≤ℤ a
  not_below a b h = ground arith

  room : (n : ℕ) (limit : ℤ) → ltb_ℤ (pos n) limit ≡ true → n < pos_part limit
  room n (pos l) h = ground arith
  room n (negsuc l) h = ground arith

  i64-lt : (limit : ℤ) → IsI64 limit → pos_part limit < 2 ^ 63
  i64-lt (pos l) h = h
  i64-lt (negsuc l) h = omega arith

  -- The builder of a query. The counter counts the rows, which are at most `limit` many and lie in
  -- the range of the query.
  pub record IsWithin (begin_ns end_ns limit : ℤ) (b : ThreadEventsRecordBuilder f) : Type 0 where
    pub begins : b.begin_query_ns ≡ begin_ns
    pub ends : b.end_query_ns ≡ end_ns
    pub limited : b.limit ≡ limit
    pub counted : b.nb_rows ≡ pos (length b.rows)
    pub bounded : length b.rows ≤ pos_part limit
    pub in_range : All (IsInRange begin_ns end_ns) b.rows

  -- The names of the two kinds of events.
  abbrev event_types : List (List ℕ)
  event_types = codes "begin" ∷ codes "end" ∷ []

  -- The strings of a row are among those that its columns have keys for.
  abbrev RowIn : Strings → List (List ℕ) → ThreadEventRow → Type 0
  RowIn k block_ids row =
      IsIn event_types (codes row.event_type)
      × AreIn k row.name row.target row.filename
      × IsIn block_ids (codes row.block_id)

  abbrev pub EventIn : Strings → ThreadEvent → Type 0
  EventIn k (begin_scope id scope ts) = AreIn k scope.name scope.target scope.filename
  EventIn k (end_scope id scope ts) = AreIn k scope.name scope.target scope.filename

  module _ (begin_ns end_ns limit : ℤ) (small : IsI64 limit) (has_key : HasKey)
      (enough : HasEnough has_key) (k : Strings) (keys : HaveKeys k) (block_id : String) where
    abbrev Known : ThreadEventRow → Type 0
    Known = RowIn k (codes block_id ∷ [])

    abbrev appended : ThreadEventRow → ThreadEventsRecordBuilder f → ThreadEventsRecordBuilder f
    appended row b = record b { nb_rows = add_i64 b.nb_rows (pos 1); rows = b.rows ++ row ∷ [] }

    append_row-ok :
        (row : ThreadEventRow) (b : ThreadEventsRecordBuilder f)
        → All Known b.rows
        → Known row
        → append_row f has_key row b ≡ ok (appended row b)
    unfolding append_row
    append_row-ok row b hs (event_type, (name, target, filename), block) =
        let one = append_value-ok has_key {Row = ThreadEventRow} enough in
        rw (
          one keys_i8 event_types (λ r. codes r.event_type) Known (λ r h. h.0) b.rows
              (codes row.event_type) (omega arith) hs event_type,
          one keys_i16 k.names (λ r. r.name) Known (λ r h. h.1.0) b.rows row.name keys.0 hs name,
          one keys_i16 k.targets (λ r. r.target) Known (λ r h. h.1.1) b.rows row.target keys.1 hs
              target,
          one keys_i16 k.filenames (λ r. r.filename) Known (λ r h. h.1.2) b.rows row.filename keys.2
              hs filename,
          one keys_i16 (codes block_id ∷ []) (λ r. codes r.block_id) Known (λ r h. h.2) b.rows
              (codes row.block_id) (omega arith) hs block,
        )

    appended-IsWithin :
        (row : ThreadEventRow) (b : ThreadEventsRecordBuilder f)
        → IsWithin begin_ns end_ns limit b
        → ltb_ℤ b.nb_rows b.limit ≡ true
        → IsInRange begin_ns end_ns row
        → IsWithin begin_ns end_ns limit (appended row b)
    appended-IsWithin row b w less in_range =
        let n = length b.rows in
        let fits : n < pos_part limit = room n limit (rw (w.counted, w.limited) at less) in
        let longer : length (b.rows ++ row ∷ []) ≡ n + 1 = length-append b.rows (row ∷ []) in
        record {
          begins = w.begins;
          ends = w.ends;
          limited = w.limited;
          counted =
              rw (w.counted, longer) (add_i64-one n (omega (arith, fits, i64-lt limit small)));
          bounded = omega (arith, longer, fits);
          in_range =
              All-append (IsInRange begin_ns end_ns) b.rows (row ∷ []) w.in_range (in_range, tt);
        }

    -- Where the builder goes, and whether it takes another event.
    abbrev Within : Result (ThreadEventsRecordBuilder f × Bool) → Type 0
    Within r =
        (b : ThreadEventsRecordBuilder f) × (continue : Bool) × (r ≡ ok (b, continue))
        × IsWithin begin_ns end_ns limit b
        × All Known b.rows

    process_event-Within :
        (event_type : String) (event_id : ℤ) (scope : ScopeDesc) (ts : ℤ)
        (b : ThreadEventsRecordBuilder f)
        → IsIn event_types (codes event_type)
        → AreIn k scope.name scope.target scope.filename
        → IsWithin begin_ns end_ns limit b
        → All Known b.rows
        → Within (process_event f has_key event_type block_id event_id scope ts b)
    unfolding process_event
    process_event-Within event_type event_id scope ts b known_type known w hs =
        let time = ticks_to_nanoseconds f b.convert_ticks ts in
        elim (Bool-cases (ltb_ℤ b.nb_rows b.limit)) [
          | inr full ↦ (b, false, rw full refl, w, hs)
          | inl less ↦ elim (Bool-cases (ltb_ℤ time b.begin_query_ns)) [
            | inl early ↦ (b, true, rw (less, early) refl, w, hs)
            | inr low ↦ elim (Bool-cases (ltb_ℤ b.end_query_ns time)) [
              | inl late ↦ (b, false, rw (less, low, late) refl, w, hs)
              | inr high ↦
                  let row = event_row f block_id event_id event_type scope time in
                  let fits : Known row = (known_type, known, inl refl) in
                  (
                    appended row b,
                    ltb_ℤ (add_i64 b.nb_rows (pos 1)) b.limit,
                    rw (less, low, high, append_row-ok row b hs fits) refl,
                    appended-IsWithin row b w less (
                      rw w.begins at (not_below time b.begin_query_ns low),
                      rw w.ends at (not_below b.end_query_ns time high),
                    ),
                    All-append Known b.rows (row ∷ []) hs (fits, tt),
                  )
            ]
          ]
        ]

    if-Within :
        (more : Bool) (b : ThreadEventsRecordBuilder f)
        (rest : Result (ThreadEventsRecordBuilder f × Bool))
        → IsWithin begin_ns end_ns limit b
        → All Known b.rows
        → Within rest
        → Within (if more then rest else ok (b, false))
    if-Within true b rest w hs h = h
    if-Within false b rest w hs h = (b, false, refl, w, hs)

    process_events-Within :
        (es : List ThreadEvent) (b : ThreadEventsRecordBuilder f)
        → All (EventIn k) es
        → IsWithin begin_ns end_ns limit b
        → All Known b.rows
        → Within (process_events (thread_events_processor f has_key) block_id es b)
    unfolding process_events on_event
    process_events-Within [] b known w hs = (b, true, refl, w, hs)
    process_events-Within (e ∷ es) b (known, others) w hs =
        let (b1, more, first, w1, hs1) = event_Within e known in
        rw first (if-Within more b1 _ w1 hs1 (process_events-Within es b1 others w1 hs1))
      where
        event_Within :
            (e : ThreadEvent)
            → EventIn k e
            → Within (on_event (thread_events_processor f has_key) block_id e b)
        event_Within (begin_scope id scope ts) known =
            process_event-Within "begin" id scope ts b (inl refl) known w hs
        event_Within (end_scope id scope ts) known =
            process_event-Within "end" id scope ts b (inr (inl refl)) known w hs

    -- Whatever events of a block a new builder gets, with a limit that an `i64` holds and, column by
    -- column, at most 32768 different strings: it never fails, its counter counts its rows, they are
    -- at most as many as the limit (none for a negative one), and the times of all of them lie in the
    -- range of the query, ends included.
    pub process_events-IsWithin :
        (es : List ThreadEvent) (convert_ticks : ConvertTicks f)
        → All (EventIn k) es
        → (b : ThreadEventsRecordBuilder f) × (continue : Bool) × (process_events
              (thread_events_processor f has_key)
              block_id
              es
              (new_builder f begin_ns end_ns limit convert_ticks)
            ≡ ok (b, continue))
          × IsWithin begin_ns end_ns limit b
    process_events-IsWithin es convert_ticks known =
        let (b, continue, ran, w, hs) =
          process_events-Within es (new_builder f begin_ns end_ns limit convert_ticks) known
            (record {
              begins = refl;
              ends = refl;
              limited = refl;
              counted = refl;
              bounded = omega arith;
              in_range = tt;
            })
            tt in
        (b, continue, ran, w)
