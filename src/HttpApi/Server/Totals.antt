-- ===== src/HttpApi/Server/Totals.antt =====
-- What the collectors count over requests of any kind.
use emovis_micro_service.Base.{
  ◌≤◌, Text, Bool, if◌then◌else◌, Bool-cases, inl, inr, ℕ, ◌+◌, ℤ, ◌≡◌, refl, ap, arith, List, [],
  ◌∷◌, length, Option, none, some,
}
use emovis_micro_service.Platform.{Platform}
use emovis_micro_service.Store.Interface.{StoreApi}
use emovis_micro_service.Metrics
use emovis_micro_service.Metrics.{Metrics}
use emovis_micro_service.Metrics.Series.{total, total-inc}
use emovis_micro_service.HttpApi.ApiError.{FieldError}
use emovis_micro_service.HttpApi.Reply.{Metric, ingest_result, validation_failure, divergent_replay}
use emovis_micro_service.HttpApi.Contract.{
  Refusal, too_large, violates, contract_metrics, contract_reply, field_errors_from_spec_validation,
}
use emovis_micro_service.HttpApi.Ingest.{Push, push, ingest_transaction}
use emovis_micro_service.HttpApi.Middleware.{
  HttpRequest, Action, set_header, write_header, write, access_log, panic_log, count_request,
}
use emovis_micro_service.HttpApi.Middleware.Traces.{counted}
use emovis_micro_service.HttpApi.Middleware.Accounting.{inner_request, router-accounts}
use emovis_micro_service.HttpApi.Telemetry.{record_metric, record_all}
use emovis_micro_service.HttpApi.Telemetry.Counted.{
  EndsOnce, outcomes, total-record_all, ingest_transaction-once,
}
use emovis_micro_service.HttpApi.Server.{
  Library, Incoming, Route, live, readies, scrape, ingest, unmatched, matched, wrapped,
  spec_validator, operation, replied, handled, mux, record_trace, sent, exchange, exchanges,
}
use emovis_micro_service.HttpApi.Server.Traces.{IsQuiet, mux-IsHandled}
use emovis_micro_service.HttpApi.Server.Admitted.{
  let_through, admitted_by, admitted, is_lost, perhaps, all_admitted,
}

record_metric-http :
    (takes : Text → Bool) (took : ℤ) (x : Metric) (m : Metrics)
    → (record_metric takes took x m).0.http_requests ≡ m.http_requests
unfolding record_metric Metrics.ingest_result Metrics.validation_failure Metrics.divergent_replay
record_metric-http takes took (ingest_result source label) m = ground arith
record_metric-http takes took (validation_failure source layer field) m = ground arith
record_metric-http takes took (divergent_replay source) m = ground arith

record_all-http :
    (takes : Text → Bool) (took : ℤ) (xs : List Metric) (m : Metrics)
    → (record_all takes took xs m).0.http_requests ≡ m.http_requests
unfolding record_all
record_all-http takes took [] m = refl
record_all-http takes took (x ∷ xs) m =
    let one = record_metric-http takes took x m in
    let rest = record_all-http takes took xs (record_metric takes took x m).0 in
    elim (Bool-cases (record_metric takes took x m).1) [
      | inl p ↦ ground arith
      | inr p ↦ ground arith
    ]

record_trace-ingest :
    (actions : List Action) (m : Metrics) → (record_trace actions m).ingest_total ≡ m.ingest_total
unfolding record_trace Metrics.http_request
record_trace-ingest [] m = refl
record_trace-ingest (count_request method route status ∷ actions) m =
    record_trace-ingest actions (Metrics.http_request method route status m)
record_trace-ingest (set_header key value ∷ actions) m = record_trace-ingest actions m
record_trace-ingest (write_header status ∷ actions) m = record_trace-ingest actions m
record_trace-ingest (write text ∷ actions) m = record_trace-ingest actions m
record_trace-ingest (access_log r status bytes ∷ actions) m = record_trace-ingest actions m
record_trace-ingest (panic_log r ∷ actions) m = record_trace-ingest actions m

total-record_trace :
    (actions : List Action) (m : Metrics)
    → total (record_trace actions m).http_requests
      ≡ total m.http_requests + length (counted actions)
unfolding record_trace counted Metrics.http_request
total-record_trace [] m = omega arith
total-record_trace (count_request method route status ∷ actions) m =
    let rest = total-record_trace actions (Metrics.http_request method route status m) in
    let one = total-inc (Metrics.request_values method route status) m.http_requests in omega arith
total-record_trace (set_header key value ∷ actions) m = total-record_trace actions m
total-record_trace (write_header status ∷ actions) m = total-record_trace actions m
total-record_trace (write text ∷ actions) m = total-record_trace actions m
total-record_trace (access_log r status bytes ∷ actions) m = total-record_trace actions m
total-record_trace (panic_log r ∷ actions) m = total-record_trace actions m

contract_metrics-EndsOnce :
    (fields : List FieldError)
    → EndsOnce (contract_metrics fields) × (outcomes (contract_metrics fields) ≡ 0)
unfolding contract_metrics
contract_metrics-EndsOnce [] = (tt, refl)
contract_metrics-EndsOnce (f ∷ fields) = contract_metrics-EndsOnce fields

contract_reply-EndsOnce :
    (id path : Text) (refusal : Refusal)
    → EndsOnce (contract_reply id path refusal).metrics
      × (outcomes (contract_reply id path refusal).metrics ≡ 0)
unfolding contract_reply
contract_reply-EndsOnce id path (too_large limit) = (tt, refl)
contract_reply-EndsOnce id path (violates suggested e) =
    contract_metrics-EndsOnce (field_errors_from_spec_validation e)

module _ {S D : Type 0} (library : Library) (platform : Platform D) (api : StoreApi S D) where
  -- 1 for a push in whose handling no call of the collectors panics, and 0 for what is lost.
  abbrev pub finished_push : Incoming → S × Metrics → Option Push → ℕ
  finished_push c w none = 0
  finished_push c w (some p) = if is_lost library platform api c p w then 0 else 1

  -- How many pushes get to the store in whose handling no call of the collectors panics.
  unfoldable pub finished : List Incoming → S × Metrics → ℕ
  finished [] w = 0
  finished (c ∷ cs) w =
      finished_push c w (admitted c) + finished cs (exchange library platform api c w)

  finished_push-perhaps :
      (c : Incoming) (w : S × Metrics) (o : Option Push) (ps : List Push)
      → finished_push c w o + length ps ≤ length (perhaps o ps)
  finished_push-perhaps c w none ps = omega arith
  finished_push-perhaps c w (some p) ps = elim (Bool-cases (is_lost library platform api c p w)) [
    | inl lost ↦ rw lost (omega arith)
    | inr kept ↦ rw kept (omega arith)
  ]

  replied-ingest :
      (c : Incoming) (refusal : Option Refusal) (s : S) (m : Metrics)
      → c.refusal ≡ refusal
      → total
          (replied library platform api c.took m (
            operation library platform api c
              (inner_request c.fresh_id c.http)
              s)).metrics.ingest_total
        ≡ total m.ingest_total + finished_push c (s, m) (let_through refusal c)
  unfolding replied operation wrapped spec_validator push
  replied-ingest c none s m h =
      let id = (inner_request c.fresh_id c.http).request_id in
      let reply = (ingest_transaction platform id api c.rules c.system s c.body).1 in
      let (last, once) = ingest_transaction-once platform id api c.rules c.system s c.body in
      let all = total-record_all library.takes_label c.took reply.metrics m last in
      rw h (ground arith)
  replied-ingest c (some refusal) s m h =
      let inner = inner_request c.fresh_id c.http in
      let reply = contract_reply inner.request_id inner.path refusal in
      let (last, never) = contract_reply-EndsOnce inner.request_id inner.path refusal in
      let all = total-record_all library.takes_label c.took reply.metrics m last in
      rw h (ground arith)

  handled-ingest :
      (route : Route) (c : Incoming) (s : S) (m : Metrics)
      → total
          (handled library platform api route c
            (inner_request c.fresh_id c.http)
            (s, m)).metrics.ingest_total
        ≡ total m.ingest_total + finished_push c (s, m) (admitted_by route c)
  unfolding handled
  handled-ingest live c s m = omega arith
  handled-ingest readies c s m = omega arith
  handled-ingest scrape c s m = omega arith
  handled-ingest ingest c s m = replied-ingest c c.refusal s m refl
  handled-ingest unmatched c s m = omega arith

  handled-http :
      (route : Route) (c : Incoming) (r : HttpRequest) (s : S) (m : Metrics)
      → (handled library platform api route c r (s, m)).metrics.http_requests ≡ m.http_requests
  unfolding handled replied
  handled-http live c r s m = refl
  handled-http readies c r s m = refl
  handled-http scrape c r s m = refl
  handled-http ingest c r s m =
      record_all-http library.takes_label c.took (operation library platform api c r s).1.metrics m
  handled-http unmatched c r s m = refl

  module _ (quiet : IsQuiet library) where
    sent-counted :
        (c : Incoming) (w : S × Metrics)
        → length (counted (sent library platform api c w).actions) ≡ 1
    unfolding sent
    sent-counted c w =
        let (_, one, _) =
          router-accounts c.fresh_id (λ r. (mux library platform api c r w).trace) c.http
            (mux-IsHandled library platform api quiet c (inner_request c.fresh_id c.http) w) in
        ap length one

    exchange-http :
        (c : Incoming) (s : S) (m : Metrics)
        → total (exchange library platform api c (s, m)).1.http_requests ≡ total m.http_requests + 1
    unfolding exchange mux inner_request
    exchange-http c s m =
        let h = mux library platform api c (inner_request c.fresh_id c.http) (s, m) in
        let same =
          ap total
            (handled-http (matched c.http.pattern) c (inner_request c.fresh_id c.http) s m) in
        let more = total-record_trace (sent library platform api c (s, m)).actions h.metrics in
        let one = sent-counted c (s, m) in omega arith

    exchange-ingest :
        (c : Incoming) (s : S) (m : Metrics)
        → total (exchange library platform api c (s, m)).1.ingest_total
          ≡ total m.ingest_total + finished_push c (s, m) (admitted c)
    unfolding exchange mux admitted inner_request
    exchange-ingest c s m =
        let h = mux library platform api c (inner_request c.fresh_id c.http) (s, m) in
        let same =
          ap total (record_trace-ingest (sent library platform api c (s, m)).actions h.metrics) in
        let own = handled-ingest (matched c.http.pattern) c s m in omega arith

    -- Over requests of any kind, where the handlers of the libraries leave counting to the
    -- middlewares: `http_requests_total` goes up by one for each request, and
    -- `ingest_transactions_total` by one for each that the mux sends to the ingest operation and
    -- the validator lets through and in whose handling no call of the collectors panics, and for no
    -- other. These are at most the pushes that get to the store.
    pub exchanges-totals :
        (cs : List Incoming) (s : S) (m : Metrics)
        → (total (exchanges library platform api cs (s, m)).1.http_requests
            ≡ total m.http_requests + length cs)
          × (total (exchanges library platform api cs (s, m)).1.ingest_total
              ≡ total m.ingest_total + finished cs (s, m))
          × (finished cs (s, m) ≤ length (all_admitted cs))
    unfolding exchanges finished all_admitted
    exchanges-totals [] s m = (omega arith, omega arith, omega arith)
    exchanges-totals (c ∷ cs) s m =
        let w = exchange library platform api c (s, m) in
        let (requests, ingests, most) = exchanges-totals cs w.0 w.1 in
        let one = exchange-http c s m in
        let own = exchange-ingest c s m in
        let known = finished_push-perhaps c (s, m) (admitted c) (all_admitted cs) in
        (omega arith, omega arith, omega arith)
