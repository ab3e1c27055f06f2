-- ===== src/Tracing/Dependencies/Laws.antt =====
-- What `extract` of rust/tracing/src/logs/block.rs gives to the reader of a block.
use micromegas.Prelude.{ℕ, ◌≡◌, refl, true, List, [], ◌∷◌, All, none}
use micromegas.Tracing.LogEvents.{
  LogMsgQueueAny, log_static_str_event, log_string_event, log_static_str_interop_event,
  log_string_interop_event,
}
use micromegas.Tracing.Dependencies.{
  LogMetadata, LogDep, contains, Deps, of_string_id, extract_event, extract_events, extract,
}
use micromegas.Tracing.Dependencies.Recorded.{
  ids, IsDistinct, IsOrdered, IsStatic, IsRecorded, add_string-Adds, record-Adds,
}

-- The addresses that an event refers to are among those of the dependencies.
abbrev pub IsCovered : List LogDep → LogMsgQueueAny → Type 0
IsCovered deps (log_static_str_event e) = contains e.desc (ids deps) ≡ true
IsCovered deps (log_string_event e) = contains e.desc (ids deps) ≡ true
IsCovered deps (log_static_str_interop_event e) =
    (contains e.target.ptr (ids deps) ≡ true) × (contains e.msg.ptr (ids deps) ≡ true)
IsCovered deps (log_string_interop_event e) = contains e.target.ptr (ids deps) ≡ true

IsCovered-grows :
    (d d' : List LogDep) (e : LogMsgQueueAny)
    → ((j : ℕ) → contains j (ids d) ≡ true → contains j (ids d') ≡ true)
    → IsCovered d e
    → IsCovered d' e
IsCovered-grows d d' (log_static_str_event e) grows h = grows _ h
IsCovered-grows d d' (log_string_event e) grows h = grows _ h
IsCovered-grows d d' (log_static_str_interop_event e) grows (h, k) = (grows _ h, grows _ k)
IsCovered-grows d d' (log_string_interop_event e) grows h = grows _ h

module _ (metadata_at : ℕ → LogMetadata) where
  -- The metadata of an event is a static value.
  abbrev pub HasStatic : LogMsgQueueAny → Type 0
  HasStatic (log_static_str_event e) = IsStatic e.desc (metadata_at e.desc)
  HasStatic (log_string_event e) = IsStatic e.desc (metadata_at e.desc)
  HasStatic (log_static_str_interop_event e) = Unit {0}
  HasStatic (log_string_interop_event e) = Unit {0}

  extract_event-IsRecorded :
      (e : LogMsgQueueAny) (d : Deps)
      → HasStatic e
      → IsRecorded none d
      → IsRecorded none (extract_event metadata_at e d)
        × ((j : ℕ)
            → contains j (ids d.deps) ≡ true
            → contains j (ids (extract_event metadata_at e d).deps) ≡ true)
        × IsCovered (extract_event metadata_at e d).deps e
  unfolding extract_event
  extract_event-IsRecorded (log_static_str_event e) d static v =
      let a = record-Adds e.desc (metadata_at e.desc) d static v in (a.valid, a.grows, a.added)
  extract_event-IsRecorded (log_string_event e) d static v =
      let a = record-Adds e.desc (metadata_at e.desc) d static v in (a.valid, a.grows, a.added)
  extract_event-IsRecorded (log_static_str_interop_event e) d static v =
      let a = add_string-Adds none (of_string_id e.target) d refl v in
      let b = add_string-Adds none (of_string_id e.msg) _ refl a.valid in
      (b.valid, (λ j h. b.grows j (a.grows j h)), (b.grows _ a.added, b.added))
  extract_event-IsRecorded (log_string_interop_event e) d static v =
      let a = add_string-Adds none (of_string_id e.target) d refl v in (a.valid, a.grows, a.added)

  extract_events-IsRecorded :
      (es : List LogMsgQueueAny) (d : Deps)
      → All HasStatic es
      → IsRecorded none d
      → IsRecorded none (extract_events metadata_at es d)
        × ((j : ℕ)
            → contains j (ids d.deps) ≡ true
            → contains j (ids (extract_events metadata_at es d).deps) ≡ true)
        × All (IsCovered (extract_events metadata_at es d).deps) es
  unfolding extract_events
  extract_events-IsRecorded [] d static v = (v, (λ j h. h), tt)
  extract_events-IsRecorded (e ∷ es) d (static, statics) v =
      let (v1, grows1, covered) = extract_event-IsRecorded e d static v in
      let (v2, grows2, all) =
        extract_events-IsRecorded es (extract_event metadata_at e d) statics v1 in
      (v2, (λ j h. grows2 j (grows1 j h)), (IsCovered-grows _ _ e grows2 covered, all))

  -- For events whose metadata are static values apart from their strings, the dependencies have every
  -- address at most once; the strings of a metadata stand before it; and every metadata and string
  -- that an event refers to is among them.
  pub extract-IsDistinct :
      (events : List LogMsgQueueAny)
      → All HasStatic events
      → IsDistinct (ids (extract metadata_at events))
        × IsOrdered (extract metadata_at events)
        × All (IsCovered (extract metadata_at events)) events
  unfolding extract contains
  extract-IsDistinct events static =
      let (v, grows, all) =
        extract_events-IsRecorded events (record { recorded_deps = []; deps = [] }) static
          (record { recorded = λ i. refl; distinct = tt; apart = tt; ordered = tt }) in
      (v.distinct, v.ordered, all)
