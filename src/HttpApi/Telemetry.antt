-- ===== src/HttpApi/Telemetry.antt =====
-- internal/httpapi/ingest.go with internal/platform/metrics: what the handler's calls leave in the
-- collectors, one request after the other.
pub mod Counted
pub mod Keys
pub mod Cardinality
use emovis_micro_service.Base.{ℕ, ℤ, pos, Text, lit, Bool, true, false, List, [], ◌∷◌}
use emovis_micro_service.Platform.{Platform}
use emovis_micro_service.Metrics
use emovis_micro_service.Metrics.{Metrics, Series, Called}
use emovis_micro_service.Metrics.Labels.{max_tracked_sources, new_source_labels}
use emovis_micro_service.Store.Interface.{StoreApi}
use emovis_micro_service.HttpApi.Reply.{
  Metric, ingest_result, validation_failure, divergent_replay, Label, created, duplicate, rejected,
  failed,
}
use emovis_micro_service.HttpApi.Ingest.{Push, push}

-- `ResultCreated` and the other three
unfoldable pub result_value : Label → Text
result_value created = lit "created"
result_value duplicate = lit "duplicate"
result_value rejected = lit "rejected"
result_value failed = lit "error"

-- One call of the handler, with the time that the request took until then.
unfoldable pub record_metric : (Text → Bool) → ℤ → Metric → Metrics → Called
unfolding result_value
record_metric takes took (ingest_result source label) m =
    Metrics.ingest_result takes source (result_value label) took m
record_metric takes took (validation_failure source layer field) m =
    Metrics.validation_failure takes source layer field m
record_metric takes took (divergent_replay source) m = Metrics.divergent_replay takes source m

-- The calls of a handler in their order; none follows one that panics.
unfoldable pub record_all : (Text → Bool) → ℤ → List Metric → Metrics → Called
unfolding record_metric
record_all takes took [] m = (m, false)
record_all takes took (x ∷ xs) m =
    let (m', panicked) = record_metric takes took x m in
    elim panicked [ true ↦ (m', true) | false ↦ record_all takes took xs m' ]
