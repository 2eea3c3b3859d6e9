-- ===== src/HttpApi/Telemetry/Cardinality.antt =====
-- The number of series of the outcomes of pushes and of the divergent replays.
use mathlib.Core.List.{Memᴰ}
use mathlib.Core.Path.{subst}
use emovis_micro_service.Base.{
  Text, Bool, true, false, if◌then◌else◌, ◌+◌, ◌*◌, ◌≤◌, ℤ, ◌≡◌, refl, sym, ◌∙◌, arith, List, [],
  ◌∷◌, length, All, All-imp,
}
use emovis_micro_service.Base.Members.{map-Memᴰ}
use emovis_micro_service.Base.Pigeonhole.{Distinct, length-le_of_Distinct}
use emovis_micro_service.Metrics
use emovis_micro_service.Metrics.{Metrics, Series}
use emovis_micro_service.Metrics.Labels.{new_source_labels, label}
use emovis_micro_service.Metrics.Labels.Bounded.{IsBounded, AllDistinct, label-IsBounded}
use emovis_micro_service.Metrics.Series.{keys, All-keys-inc, Distinct-keys-inc}
use emovis_micro_service.HttpApi.Reply.{Metric, ingest_result, validation_failure, divergent_replay}
use emovis_micro_service.Metrics.{new_metrics}
use emovis_micro_service.HttpApi.Telemetry.{result_value, record_metric, record_all}
use emovis_micro_service.HttpApi.Telemetry.Keys.{
  IsOutcomeKey, IsSourceKey, outcomes-Grow, replays-Grow, values_of, IsLabel-Memᴰ, outcome_keys,
  outcome_keys-Memᴰ, length-outcome_keys, source_keys, length-source_keys, length-keys,
}

pub record IsSparse (m : Metrics) : Type 0 where
  pub bounded : IsBounded m.sources
  pub limit : m.sources.limit ≡ 200
  pub outcomes : All (IsOutcomeKey m.sources) (keys m.ingest_total)
  pub outcomes_distinct : Distinct (keys m.ingest_total)
  pub replays : All (IsSourceKey m.sources) (keys m.divergent_replays)
  pub replays_distinct : Distinct (keys m.divergent_replays)

-- A call that panics has at most tracked a source.
touched-IsSparse :
    (source : Text) (m : Metrics)
    → IsSparse m
    → IsSparse (record m { sources = (label source m.sources).0 })
touched-IsSparse source m h =
    let (bounded, grows, limit, l) = label-IsBounded source m.sources h.bounded in
    let s' = (label source m.sources).0 in
    record {
      bounded = bounded;
      limit = limit ∙ h.limit;
      outcomes = outcomes-Grow m.sources s' (keys m.ingest_total) grows h.outcomes;
      outcomes_distinct = h.outcomes_distinct;
      replays = replays-Grow m.sources s' (keys m.divergent_replays) grows h.replays;
      replays_distinct = h.replays_distinct;
    }

abbrev chosen : Bool → Metrics → Metrics → Metrics.Called
chosen taken done undone = if taken then (done, false) else (undone, true)

either_way :
    (taken : Bool) (done undone : Metrics)
    → IsSparse done
    → IsSparse undone
    → IsSparse (chosen taken done undone).0
either_way true done undone h k = h
either_way false done undone h k = k

record_metric-IsSparse :
    (takes : Text → Bool) (took : ℤ) (x : Metric) (m : Metrics)
    → IsSparse m
    → IsSparse (record_metric takes took x m).0
unfolding record_metric Metrics.ingest_result Metrics.validation_failure Metrics.divergent_replay
record_metric-IsSparse takes took (ingest_result source r) m h =
    let (bounded, grows, limit, l) = label-IsBounded source m.sources h.bounded in
    let value = (label source m.sources).1 in
    let touched = touched-IsSparse source m h in
    either_way (Metrics.takes_all takes (value ∷ result_value r ∷ [])) _ _
      (record {
        bounded = bounded;
        limit = touched.limit;
        outcomes =
            All-keys-inc (IsOutcomeKey (label source m.sources).0) (value ∷ result_value r ∷ [])
              m.ingest_total (value, r, l, refl) touched.outcomes;
        outcomes_distinct =
            Distinct-keys-inc (value ∷ result_value r ∷ []) m.ingest_total h.outcomes_distinct;
        replays = touched.replays;
        replays_distinct = h.replays_distinct;
      })
      touched
record_metric-IsSparse takes took (validation_failure source layer field) m h =
    let touched = touched-IsSparse source m h in
    either_way _ _ _
      (record {
        bounded = touched.bounded;
        limit = touched.limit;
        outcomes = touched.outcomes;
        outcomes_distinct = h.outcomes_distinct;
        replays = touched.replays;
        replays_distinct = h.replays_distinct;
      })
      touched
record_metric-IsSparse takes took (divergent_replay source) m h =
    let (bounded, grows, limit, l) = label-IsBounded source m.sources h.bounded in
    let value = (label source m.sources).1 in
    let touched = touched-IsSparse source m h in
    either_way (Metrics.takes_all takes (value ∷ [])) _ _
      (record {
        bounded = bounded;
        limit = touched.limit;
        outcomes = touched.outcomes;
        outcomes_distinct = h.outcomes_distinct;
        replays =
            All-keys-inc (IsSourceKey (label source m.sources).0) (value ∷ []) m.divergent_replays
              (value, l, refl) touched.replays;
        replays_distinct = Distinct-keys-inc (value ∷ []) m.divergent_replays h.replays_distinct;
      })
      touched

abbrev continued : Bool → Metrics → Metrics.Called → Metrics.Called
continued panicked m rest = elim panicked [ true ↦ (m, true) | false ↦ rest ]

stopped_or :
    (panicked : Bool) (m : Metrics) (rest : Metrics.Called)
    → IsSparse m
    → IsSparse rest.0
    → IsSparse (continued panicked m rest).0
stopped_or true m rest h k = h
stopped_or false m rest h k = k

pub record_all-IsSparse :
    (takes : Text → Bool) (took : ℤ) (xs : List Metric) (m : Metrics)
    → IsSparse m
    → IsSparse (record_all takes took xs m).0
unfolding record_all
record_all-IsSparse takes took [] m h = h
record_all-IsSparse takes took (x ∷ xs) m h =
    let one = record_metric-IsSparse takes took x m h in
    let next = record_metric takes took x m in
    stopped_or next.1 next.0 (record_all takes took xs next.0) one
      (record_all-IsSparse takes took xs next.0 one)

pub new_metrics-IsSparse : IsSparse new_metrics
unfolding new_metrics new_source_labels AllDistinct
new_metrics-IsSparse = record {
  bounded = record { count = omega arith; distinct = tt; short = tt };
  limit = refl;
  outcomes = tt;
  outcomes_distinct = tt;
  replays = tt;
  replays_distinct = tt;
}

pub few_outcomes :
    (m : Metrics) → IsSparse m → length m.ingest_total ≤ 4 * (length m.sources.seen + 2)
few_outcomes m h =
    let fits =
      length-le_of_Distinct (keys m.ingest_total) (outcome_keys (values_of m.sources))
        h.outcomes_distinct
        (All-imp (keys m.ingest_total)
          (λ k (value, r, l, e).
            subst (λ key. Memᴰ key (outcome_keys (values_of m.sources))) (sym e)
              (outcome_keys-Memᴰ value r (values_of m.sources) (IsLabel-Memᴰ m.sources value l)))
          h.outcomes) in
    let keyed = length-keys m.ingest_total in
    let known = length-outcome_keys (values_of m.sources) in omega arith

pub few_replays :
    (m : Metrics) → IsSparse m → length m.divergent_replays ≤ length m.sources.seen + 2
few_replays m h =
    let fits =
      length-le_of_Distinct (keys m.divergent_replays) (source_keys (values_of m.sources))
        h.replays_distinct
        (All-imp (keys m.divergent_replays)
          (λ k (value, l, e).
            subst (λ key. Memᴰ key (source_keys (values_of m.sources))) (sym e)
              (map-Memᴰ (λ v. v ∷ []) value (values_of m.sources) (IsLabel-Memᴰ m.sources value l)))
          h.replays) in
    let keyed = length-keys m.divergent_replays in
    let known = length-source_keys (values_of m.sources) in omega arith
