-- ===== src/HttpApi/Server.antt =====
-- internal/httpapi/router.go and the wrapper of internal/httpapi/gen/api.gen.go: a request from the
-- chain of middlewares to the answer. The pattern that the mux matches is part of the request, and so
-- is what the validator, the JSON decoder and the checks make of it.
pub mod Traces
pub mod Admitted
pub mod Totals
pub mod Series
pub mod Retry
pub mod Answers
use emovis_micro_service.Base.{
  ℕ, ℤ, Bool, true, false, Text, lit, text_eq, if◌then◌else◌, List, [], ◌∷◌, Option, none, some,
  Result,
}
use emovis_micro_service.Platform.{Platform}
use emovis_micro_service.Transaction.Validate.{Rules, System}
use emovis_micro_service.Store.Interface.{StoreApi}
use emovis_micro_service.Metrics
use emovis_micro_service.Metrics.{Metrics}
use emovis_micro_service.Health.{
  Status, SentCheck, Ended, ready, new_report, ReadyReply, handle_ready, handle_live,
}
use emovis_micro_service.HttpApi.Request.{IngestRequest}
use emovis_micro_service.HttpApi.Reply.{Body, LogRecord, warn, Metric, Reply}
use emovis_micro_service.HttpApi.Ingest.{ingest_transaction}
use emovis_micro_service.HttpApi.Contract.{Refusal, contract_reply}
use emovis_micro_service.HttpApi.Middleware.{
  HttpRequest, Action, set_header, write_header, write, access_log, panic_log, count_request,
  returns, panics, Trace, router,
}
use emovis_micro_service.HttpApi.Middleware.Accounting.{inner_request}
use emovis_micro_service.HttpApi.Telemetry.{record_all}

-- What is sent as JSON: the answers of the ingest operation and of the two probes.
pub data Payload : Type 0 where
  answer : Body → Payload
  liveness : Status → Payload
  readiness : Status → List (Text × SentCheck) → Payload

-- Code outside the repository: `json.Encoder`, the page of the Prometheus registry, and what the mux
-- answers where no pattern matches. `takes_label` is whether the Prometheus client takes a label value:
-- `WithLabelValues` panics if it does not.
pub record Library : Type 0 where
  pub encode : Payload → Option Text
  pub takes_label : Text → Bool
  pub metrics_page : HttpRequest → Trace
  pub no_route : HttpRequest → Trace

-- A request, the identifier that is drawn for it, and what is made of it on the way.
pub record Incoming : Type 0 where
  pub http : HttpRequest
  pub fresh_id : Text
  pub refusal : Option Refusal
  pub body : Result Text IngestRequest
  pub rules : Rules
  pub system : System
  pub checks : List Ended
  pub took : ℤ

-- The patterns that `NewRouter` and the generated code register.
pub data Route : Type 0 where
  live readies scrape ingest unmatched : Route

unfoldable pub matched : Text → Route
matched pattern =
    if text_eq pattern (lit "GET /healthz")
    then live
    else if text_eq pattern (lit "GET /readyz")
    then readies
    else if text_eq pattern (lit "GET /metrics")
    then scrape
    else if text_eq pattern (lit "POST /ingest/v1/transactions")
    then ingest
    else unmatched

-- `writeJSON`
unfoldable pub write_json : Library → ℕ → Payload → Trace
write_json library status v = record {
  actions =
      set_header (lit "Content-Type") (lit "application/json")
      ∷ (write_header status ∷ elim (library.encode v) [ none ↦ [] | some text ↦ write text ∷ [] ]);
  ending = returns;
}

-- The log records of `handleReady`
unfoldable pub check_logs : List (Text × Text) → List LogRecord
check_logs [] = []
check_logs ((name, detail) ∷ failed) =
    record {
      level = warn;
      message = lit "readiness check failed";
      attrs = (lit "check", name) ∷ (lit "error", detail) ∷ [];
    }
    ∷ check_logs failed

-- An operation of the contract, on what the store holds.
abbrev pub Operation : Type 0 → Type 0
Operation S = HttpRequest → S → S × Reply

-- `ServerInterfaceWrapper.IngestTransaction`: every middleware wraps what the ones before it made.
unfoldable pub wrapped : {S : Type 0} → Operation S → List (Operation S → Operation S) → Operation S
wrapped handler [] = handler
wrapped handler (m ∷ middlewares) = wrapped (m handler) middlewares

-- `specValidator`: what is refused does not get past it.
unfoldable pub spec_validator : {S : Type 0} → Option Refusal → Operation S → Operation S
spec_validator none next = next
spec_validator (some refusal) next = λ r s. (s, contract_reply r.request_id r.path refusal)

-- What a handler does beside its trace.
pub record Handled (S : Type 0) : Type 0 where
  pub state : S
  pub trace : Trace
  pub metrics : Metrics
  pub logs : List LogRecord

-- What the wrappers tell the collectors.
unfoldable pub record_trace : List Action → Metrics → Metrics
record_trace [] m = m
record_trace (count_request method route status ∷ actions) m =
    record_trace actions (Metrics.http_request method route status m)
record_trace (set_header key value ∷ actions) m = record_trace actions m
record_trace (write_header status ∷ actions) m = record_trace actions m
record_trace (write text ∷ actions) m = record_trace actions m
record_trace (access_log r status bytes ∷ actions) m = record_trace actions m
record_trace (panic_log r ∷ actions) m = record_trace actions m

module _ {S D : Type 0} (library : Library) (platform : Platform D) (api : StoreApi S D) where
  -- The ingest operation as `HandlerWithOptions` registers it.
  unfoldable pub operation : Incoming → Operation S
  unfolding wrapped spec_validator
  operation c =
      wrapped (λ r s. ingest_transaction platform r.request_id api c.rules c.system s c.body)
        (spec_validator c.refusal ∷ [])

  -- The handler and the validator log, then tell the collectors, and then write the answer: a call of
  -- the collectors that panics keeps them from it.
  unfoldable pub told : Bool → Reply → Trace
  unfolding write_json
  told true reply = record { actions = []; ending = panics }
  told false reply = write_json library reply.response.status (answer reply.response.body)

  unfoldable pub replied : ℤ → Metrics → S × Reply → Handled S
  unfolding told
  replied took m (s, reply) =
      let (m', panicked) = record_all library.takes_label took reply.metrics m in
      record { state = s; trace = told panicked reply; metrics = m'; logs = reply.logs }

  ready_replied : S × Metrics → ReadyReply → Handled S
  unfolding write_json check_logs
  ready_replied (s, m) reply = record {
    state = s;
    trace = write_json library reply.code (readiness reply.status reply.checks);
    metrics = m;
    logs = check_logs reply.logged;
  }

  only : S × Metrics → Trace → Handled S
  only (s, m) t = record { state = s; trace = t; metrics = m; logs = [] }

  -- What the mux calls.
  unfoldable pub handled : Route → Incoming → HttpRequest → S × Metrics → Handled S
  unfolding operation replied ready_replied only write_json
  handled live c r w = only w (write_json library handle_live.0 (liveness handle_live.1))
  handled readies c r w = ready_replied w (handle_ready (ready c.checks new_report))
  handled scrape c r w = only w (library.metrics_page r)
  handled ingest c r w = replied c.took w.1 (operation c r w.0)
  handled unmatched c r w = only w (library.no_route r)

  unfoldable pub mux : Incoming → HttpRequest → S × Metrics → Handled S
  unfolding handled matched
  mux c r w = handled (matched r.pattern) c r w

  -- A request through the handler of `NewRouter`: the trace, and what it leaves in the store and in the
  -- collectors.
  unfoldable pub sent : Incoming → S × Metrics → Trace
  unfolding mux
  sent c w = router c.fresh_id (λ r. (mux c r w).trace) c.http

  unfoldable pub exchange : Incoming → S × Metrics → S × Metrics
  unfolding mux sent record_trace
  exchange c w =
      let h = mux c (inner_request c.fresh_id c.http) w in
      (h.state, record_trace (sent c w).actions h.metrics)

  unfoldable pub exchanges : List Incoming → S × Metrics → S × Metrics
  unfolding exchange
  exchanges [] w = w
  exchanges (c ∷ cs) w = exchanges cs (exchange c w)
