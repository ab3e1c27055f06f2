-- ===== src/Tracing/Metrics/Laws.antt =====
-- What `extract` of rust/tracing/src/metrics/block.rs gives to the reader of a block.
use micromegas.Prelude.{ℕ, ◌≡◌, refl, false, List, [], ◌∷◌, none, ◌==◌, All}
use micromegas.Tracing.Dependencies.Recorded.{IsDistinct}
use micromegas.Tracing.Recording.{Recording}
use micromegas.Tracing.Recording.Laws.{
  ptr_of, dep_ids, IsAmong, HasTextsFirst, IsValid, Grows, describe-Adds, extract_all-nothing,
}
use micromegas.Tracing.Metrics.{
  MetricMetadata, MetricMetadataRecord, MetricsMsgQueueAny, integer_metric_event,
  float_metric_event, metric_texts, metric_record, record_metric_event_dependencies, extract_metric,
  extract_metrics,
}

abbrev pub metric_id : MetricMetadataRecord → ℕ
metric_id r = r.id

abbrev pub metric_text_ids : MetricMetadataRecord → List ℕ
metric_text_ids r = r.name ∷ r.unit ∷ r.target ∷ r.module_path ∷ r.file ∷ []

-- The address that an event refers to.
abbrev pub metric_target : MetricsMsgQueueAny → ℕ
metric_target (integer_metric_event e) = e.desc
metric_target (float_metric_event e) = e.desc

module _ (metadata_at : ℕ → MetricMetadata) where
  -- The metadata of an event is a static value apart from its texts.
  abbrev pub IsStaticMetric : MetricsMsgQueueAny → Type 0
  IsStaticMetric e =
      All (λ s. (ptr_of s == metric_target e) ≡ false)
        (metric_texts (metadata_at (metric_target e)))

  extract_metric-IsValid :
      (e : MetricsMsgQueueAny) (d : Recording MetricMetadataRecord)
      → IsStaticMetric e
      → IsValid metric_id metric_text_ids none d
      → IsValid metric_id metric_text_ids none (extract_metric metadata_at e d)
        × Grows metric_id metric_text_ids d (extract_metric metadata_at e d)
        × All
            (IsAmong metric_id metric_text_ids (extract_metric metadata_at e d).deps)
            (metric_target e ∷ [])
  unfolding extract_metric record_metric_event_dependencies
  extract_metric-IsValid (integer_metric_event e) d static v =
      let m = metadata_at e.desc in
      let a =
        describe-Adds metric_id metric_text_ids (metric_texts m) (metric_record e.desc m) d static
          refl v in
      (a.valid, a.grows, (a.added, tt))
  extract_metric-IsValid (float_metric_event e) d static v =
      let m = metadata_at e.desc in
      let a =
        describe-Adds metric_id metric_text_ids (metric_texts m) (metric_record e.desc m) d static
          refl v in
      (a.valid, a.grows, (a.added, tt))

  -- For metrics whose metadata are static values apart from their texts, the dependencies have every
  -- address at most once; the five texts of a metadata stand before it; and the metadata of every
  -- metric is among them.
  pub extract_metrics-IsDistinct :
      (events : List MetricsMsgQueueAny)
      → All IsStaticMetric events
      → IsDistinct (dep_ids metric_id metric_text_ids (extract_metrics metadata_at events))
        × HasTextsFirst metric_id metric_text_ids (extract_metrics metadata_at events)
        × All
            (λ e.
              All
                (IsAmong metric_id metric_text_ids (extract_metrics metadata_at events))
                (metric_target e ∷ []))
            events
  unfolding extract_metrics
  extract_metrics-IsDistinct events static =
      extract_all-nothing metric_id metric_text_ids (extract_metric metadata_at)
        (λ e. metric_target e ∷ []) IsStaticMetric extract_metric-IsValid events static
