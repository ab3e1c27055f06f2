-- ===== src/Tracing/Spans/Tests.antt =====
-- The dependencies of concrete spans and metrics.
use micromegas.Prelude.{ℕ, refl, pos, List, [], ◌∷◌, All}
use micromegas.Levels.Verbosity.{Verbosity}
use micromegas.Tracing.Dependencies.Recorded.{IsDistinct}
use micromegas.Tracing.Recording.Laws.{dep_ids, IsAmong, HasTextsFirst}
use micromegas.Tracing.Metrics.{
  MetricMetadata, MetricsMsgQueueAny, integer_metric_event, float_metric_event, extract_metrics,
}
use micromegas.Tracing.Metrics.Laws.{
  metric_id, metric_text_ids, metric_target, extract_metrics-IsDistinct,
}
use micromegas.Tracing.Spans.{
  SpanLocation, SpanMetadata, ThreadEventQueueAny, begin_thread_span_event,
  end_async_named_span_event, extract_spans,
}
use micromegas.Tracing.Spans.Laws.{
  span_id_of, span_text_ids, span_targets, extract_spans-IsDistinct,
}

-- One metric, one span and one location for every address.
abbrev frame_time : ℕ → MetricMetadata
frame_time ptr = record {
  lod = Verbosity.min;
  name = record { len = 2; ptr = 100 };
  unit = record { len = 3; ptr = 200 };
  target = record { len = 3; ptr = 300 };
  module_path = record { len = 3; ptr = 300 };
  file = record { len = 1; ptr = 400 };
  line = 12;
}

abbrev two_metrics : List MetricsMsgQueueAny
two_metrics =
    integer_metric_event (record { desc = 4096; value = 3; time = pos 5 })
    ∷ float_metric_event (record { desc = 4096; value = 4; time = pos 6 })
    ∷ []

extract_metrics-IsDistinct_example :
    IsDistinct (dep_ids metric_id metric_text_ids (extract_metrics frame_time two_metrics))
    × HasTextsFirst metric_id metric_text_ids (extract_metrics frame_time two_metrics)
    × All
        (λ e.
          All
            (IsAmong metric_id metric_text_ids (extract_metrics frame_time two_metrics))
            (metric_target e ∷ []))
        two_metrics
extract_metrics-IsDistinct_example =
    extract_metrics-IsDistinct frame_time two_metrics
      ((refl, (refl, (refl, (refl, (refl, tt))))), ((refl, (refl, (refl, (refl, (refl, tt))))), tt))

abbrev here : ℕ → SpanLocation
here ptr = record {
  lod = Verbosity.med;
  target = record { len = 3; ptr = 300 };
  module_path = record { len = 3; ptr = 300 };
  file = record { len = 1; ptr = 400 };
  line = 7;
}

abbrev update_span : ℕ → SpanMetadata
update_span ptr = record { name = record { len = 6; ptr = 500 }; location = here ptr }

abbrev two_spans : List ThreadEventQueueAny
two_spans =
    begin_thread_span_event (record { thread_span_desc = 4096; time = pos 5 })
    ∷ end_async_named_span_event (record {
      span_location = 8192;
      name = record { ptr = 600; len = 4 };
      span_id = 1;
      time = pos 6;
    })
    ∷ []

extract_spans-IsDistinct_example :
    IsDistinct (dep_ids span_id_of span_text_ids (extract_spans update_span here two_spans))
    × HasTextsFirst span_id_of span_text_ids (extract_spans update_span here two_spans)
    × All
        (λ e.
          All
            (IsAmong span_id_of span_text_ids (extract_spans update_span here two_spans))
            (span_targets e))
        two_spans
extract_spans-IsDistinct_example =
    extract_spans-IsDistinct update_span here two_spans
      ((refl, (refl, (refl, (refl, tt)))), ((refl, (refl, (refl, tt))), tt))
