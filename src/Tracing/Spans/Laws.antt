-- ===== src/Tracing/Spans/Laws.antt =====
-- What `extract` of rust/tracing/src/spans/block.rs gives to the reader of a block.
use micromegas.Prelude.{ℕ, ◌≡◌, refl, false, List, [], ◌∷◌, none, ◌==◌, All}
use micromegas.Tracing.LogEvents.{StringId}
use micromegas.Tracing.Dependencies.{StaticString, of_string_id}
use micromegas.Tracing.Dependencies.Recorded.{IsDistinct}
use micromegas.Tracing.Recording.{Recording}
use micromegas.Tracing.Recording.Laws.{
  ptr_of, dep_ids, IsAmong, HasTextsFirst, IsValid, Grows, add_text-Adds, describe-Adds,
  extract_all-nothing,
}
use micromegas.Tracing.Spans.{
  SpanLocation, SpanMetadata, ThreadRecord, span_record, span_location_record, ThreadEventQueueAny,
  begin_thread_span_event, end_thread_span_event, begin_thread_named_span_event,
  end_thread_named_span_event, begin_async_span_event, end_async_span_event,
  begin_async_named_span_event, end_async_named_span_event, span_record_of, location_record_of,
  span_texts, location_texts, record_scope_event_dependencies,
  record_named_scope_event_dependencies, extract_span, extract_spans,
}

abbrev pub span_id_of : ThreadRecord → ℕ
span_id_of (span_record r) = r.id
span_id_of (span_location_record r) = r.id

abbrev pub span_text_ids : ThreadRecord → List ℕ
span_text_ids (span_record r) = r.name ∷ r.target ∷ r.module_path ∷ r.file ∷ []
span_text_ids (span_location_record r) = r.target ∷ r.module_path ∷ r.file ∷ []

-- The addresses that an event refers to: its description, and its name where it has one of its own.
abbrev pub span_targets : ThreadEventQueueAny → List ℕ
span_targets (begin_thread_span_event e) = e.thread_span_desc ∷ []
span_targets (end_thread_span_event e) = e.thread_span_desc ∷ []
span_targets (begin_thread_named_span_event e) = e.thread_span_location ∷ e.name.ptr ∷ []
span_targets (end_thread_named_span_event e) = e.thread_span_location ∷ e.name.ptr ∷ []
span_targets (begin_async_span_event e) = e.span_desc ∷ []
span_targets (end_async_span_event e) = e.span_desc ∷ []
span_targets (begin_async_named_span_event e) = e.span_location ∷ e.name.ptr ∷ []
span_targets (end_async_named_span_event e) = e.span_location ∷ e.name.ptr ∷ []

abbrev pub AreApart : ℕ → List StaticString → Type 0
AreApart ptr texts = All (λ s. (ptr_of s == ptr) ≡ false) texts

module _ (metadata_at : ℕ → SpanMetadata) (location_at : ℕ → SpanLocation) where
  -- What an event describes is a static value apart from its texts.
  abbrev pub IsStaticSpan : ThreadEventQueueAny → Type 0
  IsStaticSpan (begin_thread_span_event e) =
      AreApart e.thread_span_desc (span_texts (metadata_at e.thread_span_desc))
  IsStaticSpan (end_thread_span_event e) =
      AreApart e.thread_span_desc (span_texts (metadata_at e.thread_span_desc))
  IsStaticSpan (begin_thread_named_span_event e) =
      AreApart e.thread_span_location (location_texts (location_at e.thread_span_location))
  IsStaticSpan (end_thread_named_span_event e) =
      AreApart e.thread_span_location (location_texts (location_at e.thread_span_location))
  IsStaticSpan (begin_async_span_event e) =
      AreApart e.span_desc (span_texts (metadata_at e.span_desc))
  IsStaticSpan (end_async_span_event e) =
      AreApart e.span_desc (span_texts (metadata_at e.span_desc))
  IsStaticSpan (begin_async_named_span_event e) =
      AreApart e.span_location (location_texts (location_at e.span_location))
  IsStaticSpan (end_async_named_span_event e) =
      AreApart e.span_location (location_texts (location_at e.span_location))

  abbrev Kept : Recording ThreadRecord → Recording ThreadRecord → List ℕ → Type 0
  Kept d d' targets =
      IsValid span_id_of span_text_ids none d'
      × Grows span_id_of span_text_ids d d'
      × All (IsAmong span_id_of span_text_ids d'.deps) targets

  scope-Kept :
      (ptr : ℕ) (m : SpanMetadata) (d : Recording ThreadRecord)
      → AreApart ptr (span_texts m)
      → IsValid span_id_of span_text_ids none d
      → Kept d (record_scope_event_dependencies ptr m d) (ptr ∷ [])
  unfolding record_scope_event_dependencies
  scope-Kept ptr m d static v =
      let a =
        describe-Adds span_id_of span_text_ids (span_texts m) (span_record (span_record_of ptr m)) d
          static refl v in
      (a.valid, a.grows, (a.added, tt))

  named-Kept :
      (ptr : ℕ) (l : SpanLocation) (name : StringId) (d : Recording ThreadRecord)
      → AreApart ptr (location_texts l)
      → IsValid span_id_of span_text_ids none d
      → Kept d (record_named_scope_event_dependencies ptr l name d) (ptr ∷ name.ptr ∷ [])
  unfolding record_named_scope_event_dependencies
  named-Kept ptr l name d static v =
      let a =
        describe-Adds span_id_of span_text_ids (location_texts l)
          (span_location_record (location_record_of ptr l)) d static refl v in
      let b = add_text-Adds span_id_of span_text_ids none (of_string_id name) _ refl a.valid in
      (b.valid, (λ j h. b.grows j (a.grows j h)), (b.grows _ a.added, (b.added, tt)))

  extract_span-Kept :
      (e : ThreadEventQueueAny) (d : Recording ThreadRecord)
      → IsStaticSpan e
      → IsValid span_id_of span_text_ids none d
      → Kept d (extract_span metadata_at location_at e d) (span_targets e)
  unfolding extract_span
  extract_span-Kept (begin_thread_span_event e) d static v = scope-Kept _ _ d static v
  extract_span-Kept (end_thread_span_event e) d static v = scope-Kept _ _ d static v
  extract_span-Kept (begin_thread_named_span_event e) d static v = named-Kept _ _ e.name d static v
  extract_span-Kept (end_thread_named_span_event e) d static v = named-Kept _ _ e.name d static v
  extract_span-Kept (begin_async_span_event e) d static v = scope-Kept _ _ d static v
  extract_span-Kept (end_async_span_event e) d static v = scope-Kept _ _ d static v
  extract_span-Kept (begin_async_named_span_event e) d static v = named-Kept _ _ e.name d static v
  extract_span-Kept (end_async_named_span_event e) d static v = named-Kept _ _ e.name d static v

  -- For spans of all eight kinds whose descriptions are static values apart from their texts, the
  -- dependencies have every address at most once; the texts of a span or of a location stand before
  -- its record; and every description and every name that an event refers to is among them.
  pub extract_spans-IsDistinct :
      (events : List ThreadEventQueueAny)
      → All IsStaticSpan events
      → IsDistinct (dep_ids span_id_of span_text_ids (extract_spans metadata_at location_at events))
        × HasTextsFirst span_id_of span_text_ids (extract_spans metadata_at location_at events)
        × All
            (λ e.
              All
                (IsAmong span_id_of span_text_ids (extract_spans metadata_at location_at events))
                (span_targets e))
            events
  unfolding extract_spans
  extract_spans-IsDistinct events static =
      extract_all-nothing span_id_of span_text_ids (extract_span metadata_at location_at)
        span_targets IsStaticSpan extract_span-Kept events static
