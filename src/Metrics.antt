-- ===== src/Metrics.antt =====
-- internal/platform/metrics/metrics.go: what the collectors are told. A counter vector is its series,
-- and a histogram the list of its observations. The registry and the texts of the metrics are not
-- modelled.
pub mod Labels
pub mod Series
use emovis_micro_service.Base.{
  ℕ, ◌+◌, Text, lit, text_eq, ◌&&◌, Bool, true, false, is_empty, if◌then◌else◌, List, [], ◌∷◌,
  Option, none, some, ℤ, pos,
}
use emovis_micro_service.Base.Maps.{get, put}
use emovis_micro_service.Base.Format.{decimal_text}
use emovis_micro_service.Metrics.Labels.{
  SourceLabels, max_tracked_sources, new_source_labels, label,
}

-- The label values of a series, and how often it was counted.
abbrev pub Series : Type 0
Series = List (List Text × ℕ)

unfoldable pub same_values : List Text → List Text → Bool
same_values [] [] = true
same_values (v ∷ vs) (w ∷ ws) = text_eq v w && same_values vs ws
same_values _ _ = false

-- `WithLabelValues(…).Inc()`
unfoldable pub inc : List Text → Series → Series
inc values m = elim (get same_values values m) [
  | none ↦ put same_values values 1 m
  | some n ↦ put same_values values (n + 1) m
]

-- Whether the client library takes all label values of a call; `WithLabelValues` panics if it does not.
unfoldable pub takes_all : (Text → Bool) → List Text → Bool
takes_all takes [] = true
takes_all takes (v ∷ vs) = takes v && takes_all takes vs

-- `Metrics`
pub record Metrics : Type 0 where
  pub sources : SourceLabels
  pub ingest_total : Series
  pub ingest_duration : List (Text × ℤ)
  pub validation_failures : Series
  pub divergent_replays : Series
  pub outbox_pending : ℕ
  pub outbox_oldest_age : ℤ
  pub outbox_published : Series
  pub http_requests : Series

-- `New`
unfoldable pub new_metrics : Metrics
unfolding new_source_labels
new_metrics = record {
  sources = new_source_labels max_tracked_sources;
  ingest_total = [];
  ingest_duration = [];
  validation_failures = [];
  divergent_replays = [];
  outbox_pending = 0;
  outbox_oldest_age = pos 0;
  outbox_published = [];
  http_requests = [];
}

-- The collectors after a call with a producer's label, and whether the call panicked.
abbrev pub Called : Type 0
Called = Metrics × Bool

-- `IngestResult`
unfoldable pub ingest_result : (Text → Bool) → Text → Text → ℤ → Metrics → Called
unfolding inc takes_all
ingest_result takes source result took m =
    let (sources, value) = label source m.sources in
    if takes_all takes (value ∷ result ∷ [])
    then (
      record m {
        sources = sources;
        ingest_total = inc (value ∷ result ∷ []) m.ingest_total;
        ingest_duration = (result, took) ∷ m.ingest_duration;
      },
      false,
    )
    else (record m { sources = sources }, true)

abbrev pub failure_values : Text → Text → Text → List Text
failure_values value layer field =
    value ∷ layer ∷ (if is_empty field then lit "request" else field) ∷ []

-- `ValidationFailure`
unfoldable pub validation_failure : (Text → Bool) → Text → Text → Text → Metrics → Called
unfolding inc takes_all
validation_failure takes source layer field m =
    let (sources, value) = label source m.sources in
    if takes_all takes (failure_values value layer field)
    then (
      record m {
        sources = sources;
        validation_failures = inc (failure_values value layer field) m.validation_failures;
      },
      false,
    )
    else (record m { sources = sources }, true)

-- `DivergentReplay`
unfoldable pub divergent_replay : (Text → Bool) → Text → Metrics → Called
unfolding inc takes_all
divergent_replay takes source m =
    let (sources, value) = label source m.sources in
    if takes_all takes (value ∷ [])
    then (
      record m { sources = sources; divergent_replays = inc (value ∷ []) m.divergent_replays },
      false,
    )
    else (record m { sources = sources }, true)

-- `OutboxBacklog`
unfoldable pub outbox_backlog : ℕ → ℤ → Metrics → Metrics
outbox_backlog pending oldest m = record m { outbox_pending = pending; outbox_oldest_age = oldest }

-- `OutboxPublish`, which is given one of two constants
unfoldable pub outbox_publish : Text → Metrics → Metrics
unfolding inc
outbox_publish result m = record m { outbox_published = inc (result ∷ []) m.outbox_published }

abbrev pub request_values : Text → Text → ℕ → List Text
request_values method route status = method ∷ route ∷ decimal_text (pos status) ∷ []

-- `HTTPRequest`. The method is a token of HTTP and the route a registered pattern: both are ASCII, which
-- the client library takes.
unfoldable pub http_request : Text → Text → ℕ → Metrics → Metrics
unfolding inc
http_request method route status m = record m {
  http_requests = inc (request_values method route status) m.http_requests;
}
