-- ===== src/Tracing/Metrics.antt =====
-- The metrics of rust/tracing/src/metrics/events.rs and the dependencies that `extract` finds in a
-- block of them (rust/tracing/src/metrics/block.rs). A reference is an address, and the static
-- metadata at an address is an argument. An `f64` is its bits.
pub mod Laws
use micromegas.Prelude.{ℕ, ℤ, List, [], ◌∷◌}
use micromegas.Levels.Verbosity
use micromegas.Levels.Verbosity.{Verbosity}
use micromegas.Tracing.Dependencies.{StaticString}
use micromegas.Tracing.Recording.{Dep, Recording, nothing_recorded, describe, extract_all}

pub record MetricMetadata : Type 0 where
  pub lod : Verbosity
  pub name : StaticString
  pub unit : StaticString
  pub target : StaticString
  pub module_path : StaticString
  pub file : StaticString
  pub line : ℕ

pub record IntegerMetricEvent : Type 0 where
  pub desc : ℕ
  pub value : ℕ
  pub time : ℤ

pub record FloatMetricEvent : Type 0 where
  pub desc : ℕ
  pub value : ℕ
  pub time : ℤ

pub record MetricMetadataRecord : Type 0 where
  pub id : ℕ
  pub name : ℕ
  pub unit : ℕ
  pub target : ℕ
  pub module_path : ℕ
  pub file : ℕ
  pub line : ℕ
  pub lod : ℕ

-- A value of `MetricsMsgQueue`
pub data MetricsMsgQueueAny : Type 0 where
  integer_metric_event : IntegerMetricEvent → MetricsMsgQueueAny
  float_metric_event : FloatMetricEvent → MetricsMsgQueueAny

abbrev pub metric_record : ℕ → MetricMetadata → MetricMetadataRecord
metric_record metric_ptr m = record {
  id = metric_ptr;
  name = m.name.ptr;
  unit = m.unit.ptr;
  target = m.target.ptr;
  module_path = m.module_path.ptr;
  file = m.file.ptr;
  line = m.line;
  lod = Verbosity.as_u32 m.lod;
}

-- The texts of a metadata in the order in which they are pushed.
abbrev pub metric_texts : MetricMetadata → List StaticString
metric_texts m = m.name ∷ m.unit ∷ m.target ∷ m.module_path ∷ m.file ∷ []

unfoldable pub record_metric_event_dependencies :
    ℕ → MetricMetadata → Recording MetricMetadataRecord → Recording MetricMetadataRecord
record_metric_event_dependencies metric_ptr m d =
    describe metric_ptr (metric_texts m) (metric_record metric_ptr m) d

module _ (metadata_at : ℕ → MetricMetadata) where
  -- One arm of the `match` in `extract`.
  unfoldable pub extract_metric :
      MetricsMsgQueueAny → Recording MetricMetadataRecord → Recording MetricMetadataRecord
  extract_metric (integer_metric_event e) d =
      record_metric_event_dependencies e.desc (metadata_at e.desc) d
  extract_metric (float_metric_event e) d =
      record_metric_event_dependencies e.desc (metadata_at e.desc) d

  -- `extract` over the events that the queue holds
  unfoldable pub extract_metrics : List MetricsMsgQueueAny → List (Dep MetricMetadataRecord)
  extract_metrics events = (extract_all extract_metric events nothing_recorded).deps
