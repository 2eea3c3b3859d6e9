-- ===== src/HttpApi/Server/Series.antt =====
-- The tracked sources and the number of series of two of the collectors, over all requests.
use emovis_micro_service.Base.{◌≤◌, arith, List, [], ◌∷◌, length}
use emovis_micro_service.Platform.{Platform}
use emovis_micro_service.Store.Interface.{StoreApi}
use emovis_micro_service.Metrics
use emovis_micro_service.Metrics.{Metrics}
use emovis_micro_service.Metrics.Labels.{tracked}
use emovis_micro_service.HttpApi.Middleware.{
  HttpRequest, Action, set_header, write_header, write, access_log, panic_log, count_request,
}
use emovis_micro_service.HttpApi.Middleware.Accounting.{inner_request}
use emovis_micro_service.Metrics.{new_metrics}
use emovis_micro_service.HttpApi.Telemetry.Cardinality.{
  IsSparse, record_all-IsSparse, new_metrics-IsSparse, few_outcomes, few_replays,
}
use emovis_micro_service.HttpApi.Server.{
  Library, Incoming, Route, live, readies, scrape, ingest, unmatched, matched, operation, replied,
  handled, mux, record_trace, sent, exchange, exchanges,
}

http_request-IsSparse :
    (actions : List Action) (m : Metrics) → IsSparse m → IsSparse (record_trace actions m)
unfolding record_trace Metrics.http_request
http_request-IsSparse [] m h = h
http_request-IsSparse (count_request method route status ∷ actions) m h =
    http_request-IsSparse actions (Metrics.http_request method route status m) (record {
      bounded = h.bounded;
      limit = h.limit;
      outcomes = h.outcomes;
      outcomes_distinct = h.outcomes_distinct;
      replays = h.replays;
      replays_distinct = h.replays_distinct;
    })
http_request-IsSparse (set_header key value ∷ actions) m h = http_request-IsSparse actions m h
http_request-IsSparse (write_header status ∷ actions) m h = http_request-IsSparse actions m h
http_request-IsSparse (write text ∷ actions) m h = http_request-IsSparse actions m h
http_request-IsSparse (access_log r status bytes ∷ actions) m h = http_request-IsSparse actions m h
http_request-IsSparse (panic_log r ∷ actions) m h = http_request-IsSparse actions m h

module _ {S D : Type 0} (library : Library) (platform : Platform D) (api : StoreApi S D) where
  handled-IsSparse :
      (route : Route) (c : Incoming) (r : HttpRequest) (s : S) (m : Metrics)
      → IsSparse m
      → IsSparse (handled library platform api route c r (s, m)).metrics
  unfolding handled replied
  handled-IsSparse live c r s m h = h
  handled-IsSparse readies c r s m h = h
  handled-IsSparse scrape c r s m h = h
  handled-IsSparse ingest c r s m h =
      record_all-IsSparse library.takes_label c.took
        (operation library platform api c r s).1.metrics m h
  handled-IsSparse unmatched c r s m h = h

  exchange-IsSparse :
      (c : Incoming) (s : S) (m : Metrics)
      → IsSparse m
      → IsSparse (exchange library platform api c (s, m)).1
  unfolding exchange mux inner_request
  exchange-IsSparse c s m h =
      http_request-IsSparse (sent library platform api c (s, m)).actions _
        (handled-IsSparse (matched c.http.pattern) c (inner_request c.fresh_id c.http) s m h)

  exchanges-IsSparse :
      (cs : List Incoming) (s : S) (m : Metrics)
      → IsSparse m
      → IsSparse (exchanges library platform api cs (s, m)).1
  unfolding exchanges
  exchanges-IsSparse [] s m h = h
  exchanges-IsSparse (c ∷ cs) s m h =
      let w = exchange library platform api c (s, m) in
      exchanges-IsSparse cs w.0 w.1 (exchange-IsSparse c s m h)

  -- Whatever requests are served from a start of the service, however many producers push and whatever
  -- they call themselves, and whatever the store does: at most 200 sources are tracked,
  -- `ingest_transactions_total` has at most 808 series, and `ingest_divergent_duplicates_total` at most
  -- 202.
  pub exchanges-few :
      (cs : List Incoming) (s : S)
      → (tracked (exchanges library platform api cs (s, new_metrics)).1.sources ≤ 200)
        × (length (exchanges library platform api cs (s, new_metrics)).1.ingest_total ≤ 808)
        × (length (exchanges library platform api cs (s, new_metrics)).1.divergent_replays ≤ 202)
  unfolding tracked
  exchanges-few cs s =
      let m = (exchanges library platform api cs (s, new_metrics)).1 in
      let h = exchanges-IsSparse cs s new_metrics new_metrics-IsSparse in
      let count = h.bounded.count in
      let limit = h.limit in
      (omega arith, omega (arith, few_outcomes m h), omega (arith, few_replays m h))
