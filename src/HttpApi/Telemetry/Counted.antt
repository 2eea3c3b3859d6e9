-- ===== src/HttpApi/Telemetry/Counted.antt =====
-- How often the outcome of a push is counted, where calls of the collectors may panic.
use emovis_micro_service.Base.{
  ap, inr, inl, Bool-cases, ℕ, suc, ◌+◌, ℤ, ◌≡◌, refl, arith, Text, true, false, List, [], ◌∷◌,
  ◌++◌, Result, ok, err, Bool, if◌then◌else◌,
}
use emovis_micro_service.Platform.{Platform}
use emovis_micro_service.Metrics
use emovis_micro_service.Metrics.{Metrics}
use emovis_micro_service.Metrics.Labels.{label}
use emovis_micro_service.Metrics.Series.{total, total-inc}
use emovis_micro_service.Store.Interface.{StoreApi}
use emovis_micro_service.Transaction.Model.{Transaction, IngestOutcome}
use emovis_micro_service.Transaction.Validate.{
  Rules, System, Verdict, accepted, rejected, faulted, accept,
}
use emovis_micro_service.HttpApi.ApiError.{FieldError}
use emovis_micro_service.HttpApi.Request.{IngestRequest}
use emovis_micro_service.HttpApi.Mapping.{to_submission, to_field_errors}
use emovis_micro_service.HttpApi.Reply.{
  Metric, Label, ingest_result, validation_failure, divergent_replay,
}
use emovis_micro_service.HttpApi.Ingest.{
  count_fields, unreadable, not_built, refused, not_recorded, recorded, judged, stored_reply,
  ingest_transaction,
}
use emovis_micro_service.HttpApi.Telemetry.{result_value, record_metric, record_all}

-- How often the outcome of a push is counted.
abbrev pub outcomes : List Metric → ℕ
outcomes [] = 0
outcomes (ingest_result source label ∷ xs) = suc (outcomes xs)
outcomes (validation_failure source layer field ∷ xs) = outcomes xs
outcomes (divergent_replay source ∷ xs) = outcomes xs

outcomes-count_fields :
    (source : Text) (fields : List FieldError) (rest : List Metric)
    → outcomes (count_fields source fields ++ rest) ≡ outcomes rest
unfolding count_fields
outcomes-count_fields source [] rest = refl
outcomes-count_fields source (f ∷ fields) rest = outcomes-count_fields source fields rest

-- The outcome is the last that is counted.
abbrev pub EndsOnce : List Metric → Type 0
EndsOnce [] = Unit
EndsOnce (ingest_result source label ∷ xs) = xs ≡ []
EndsOnce (validation_failure source layer field ∷ xs) = EndsOnce xs
EndsOnce (divergent_replay source ∷ xs) = EndsOnce xs

EndsOnce-count_fields :
    (source : Text) (fields : List FieldError) (rest : List Metric)
    → EndsOnce rest
    → EndsOnce (count_fields source fields ++ rest)
unfolding count_fields
EndsOnce-count_fields source [] rest h = h
EndsOnce-count_fields source (f ∷ fields) rest h = EndsOnce-count_fields source fields rest h

abbrev source_label : Text → Metrics → Text
source_label source m = (label source m.sources).1

-- A call that does not count the outcome of a push.
IsBeside : Metric → Type 0
IsBeside (ingest_result source label) = ⊥
IsBeside (validation_failure source layer field) = Unit
IsBeside (divergent_replay source) = Unit

record_metric-beside :
    (takes : Text → Bool) (took : ℤ) (x : Metric) (m : Metrics)
    → IsBeside x
    → (record_metric takes took x m).0.ingest_total ≡ m.ingest_total
unfolding record_metric IsBeside Metrics.ingest_result Metrics.validation_failure
    Metrics.divergent_replay
record_metric-beside takes took (ingest_result source label) m h = absurd h
record_metric-beside takes took (validation_failure source layer field) m h = ground arith
record_metric-beside takes took (divergent_replay source) m h = ground arith

total-record_metric :
    (takes : Text → Bool) (took : ℤ) (source : Text) (l : Label) (m : Metrics)
    → total (record_metric takes took (ingest_result source l) m).0.ingest_total
      ≡ total m.ingest_total
        + (if (record_metric takes took (ingest_result source l) m).1 then 0 else 1)
unfolding record_metric Metrics.ingest_result
total-record_metric takes took source l m =
    let values = source_label source m ∷ result_value l ∷ [] in
    let one = total-inc values m.ingest_total in
    elim (Bool-cases (Metrics.takes_all takes values)) [
      | inl e ↦ simp e one
      | inr e ↦ simp e (omega arith)
    ]

-- Whether the calls went through, as the number of outcomes that they count.
abbrev pub counts : Metrics.Called → List Metric → ℕ
counts w xs = if w.1 then 0 else outcomes xs

total_beside :
    (takes : Text → Bool) (took : ℤ) (x : Metric) (xs : List Metric) (m : Metrics)
    → IsBeside x
    → outcomes (x ∷ xs) ≡ outcomes xs
    → total (record_all takes took xs (record_metric takes took x m).0).0.ingest_total
      ≡ total (record_metric takes took x m).0.ingest_total
        + counts (record_all takes took xs (record_metric takes took x m).0) xs
    → total (record_all takes took (x ∷ xs) m).0.ingest_total
      ≡ total m.ingest_total + counts (record_all takes took (x ∷ xs) m) (x ∷ xs)
unfolding record_all
total_beside takes took x xs m h same rest =
    let one = ap total (record_metric-beside takes took x m h) in
    elim (Bool-cases (record_metric takes took x m).1) [
      | inl e ↦ ground arith
      | inr e ↦ ground arith
    ]

-- The outcome is counted where no call panics, and nowhere else.
pub total-record_all :
    (takes : Text → Bool) (took : ℤ) (xs : List Metric) (m : Metrics)
    → EndsOnce xs
    → total (record_all takes took xs m).0.ingest_total
      ≡ total m.ingest_total + counts (record_all takes took xs m) xs
unfolding record_all IsBeside
total-record_all takes took [] m h = omega arith
total-record_all takes took (ingest_result source l ∷ xs) m h =
    let one = total-record_metric takes took source l m in
    elim (Bool-cases (record_metric takes took (ingest_result source l) m).1) [
      | inl e ↦ ground arith
      | inr e ↦ ground arith
    ]
total-record_all takes took (validation_failure source layer field ∷ xs) m h =
    total_beside takes took (validation_failure source layer field) xs m tt refl (
      total-record_all takes took xs
        (record_metric takes took (validation_failure source layer field) m).0 h)
total-record_all takes took (divergent_replay source ∷ xs) m h =
    total_beside takes took (divergent_replay source) xs m tt refl
      (total-record_all takes took xs (record_metric takes took (divergent_replay source) m).0 h)

module _ (takes : Text → Bool) (all : (v : Text) → takes v ≡ true) where
  takes_all-taken : (vs : List Text) → Metrics.takes_all takes vs ≡ true
  unfolding Metrics.takes_all
  takes_all-taken [] = refl
  takes_all-taken (v ∷ vs) = ground (arith, all v, takes_all-taken vs)

  record_metric-taken :
      (took : ℤ) (x : Metric) (m : Metrics) → (record_metric takes took x m).1 ≡ false
  unfolding record_metric Metrics.ingest_result Metrics.validation_failure Metrics.divergent_replay
  record_metric-taken took (ingest_result source label) m = rw (takes_all-taken _) refl
  record_metric-taken took (validation_failure source layer field) m = rw (takes_all-taken _) refl
  record_metric-taken took (divergent_replay source) m = rw (takes_all-taken _) refl

  -- Where every label value is taken, no call panics.
  pub record_all-taken :
      (took : ℤ) (xs : List Metric) (m : Metrics) → (record_all takes took xs m).1 ≡ false
  unfolding record_all
  record_all-taken took [] m = refl
  record_all-taken took (x ∷ xs) m =
      let one = record_metric-taken took x m in
      let rest = record_all-taken took xs (record_metric takes took x m).0 in ground arith

with_divergence :
    (divergent : Bool) (source : Text) (label : Label)
    → EndsOnce (
        (if divergent then divergent_replay source ∷ [] else [])
        ++ (ingest_result source label ∷ []))
      × (outcomes (
            (if divergent then divergent_replay source ∷ [] else [])
            ++ (ingest_result source label ∷ []))
          ≡ 1)
with_divergence true source label = (refl, refl)
with_divergence false source label = (refl, refl)

-- The outcome of the push is counted once, after all else.
abbrev pub CountsOnce : List Metric → Type 0
CountsOnce xs = EndsOnce xs × (outcomes xs ≡ 1)

module _ {S D : Type 0} (platform : Platform D) (id : Text) (api : StoreApi S D) (r : Rules)
    (sys : System) where
  stored_reply-once :
      (tx : Transaction D) (c : S × Result Text (IngestOutcome D))
      → CountsOnce (stored_reply platform id api r sys tx c).1.metrics
  unfolding stored_reply recorded not_recorded
  stored_reply-once tx (s, ok o) = with_divergence o.divergent tx.source _
  stored_reply-once tx (s, err cause) = (refl, refl)

  judged-once :
      (s : S) (body : IngestRequest) (v : Verdict D)
      → CountsOnce (judged platform id api r sys s body v).1.metrics
  unfolding judged not_built refused
  judged-once s body (faulted cause) = (refl, refl)
  judged-once s body (rejected problems) = (
    EndsOnce-count_fields body.source (to_field_errors problems) _ refl,
    outcomes-count_fields body.source (to_field_errors problems) _,
  )
  judged-once s body (accepted tx) = stored_reply-once tx (api.ingest s tx)

  pub ingest_transaction-once :
      (s : S) (request : Result Text IngestRequest)
      → CountsOnce (ingest_transaction platform id api r sys s request).1.metrics
  unfolding ingest_transaction unreadable
  ingest_transaction-once s (err cause) = (refl, refl)
  ingest_transaction-once s (ok body) =
      judged-once s body (accept platform r sys (to_submission body))
