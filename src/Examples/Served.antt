-- ===== src/Examples/Served.antt =====
-- The server: a push, a probe, a body that the contract refuses, a path that is unknown, and a push of
-- the same key again.
use emovis_micro_service.Base.{
  false, true, ◌+◌, ◌≤◌, pos, lit, Text, List, [], ◌∷◌, length, All, Option, none, some, ok, ◌≡◌,
  ◌⊎◌, refl, sym, ap, ◌∙◌, arith, inl,
}
use emovis_micro_service.Metrics.Labels.{tracked}
use emovis_micro_service.Metrics.Series.{total}
use emovis_micro_service.Store.Memory.{new}
use emovis_micro_service.Store.Memory.Contract.{memory_api-IsStore}
use emovis_micro_service.Store.Memory.Laws.{new-IsConsistent}
use emovis_micro_service.HttpApi.Contract.{Refusal, too_large}
use emovis_micro_service.HttpApi.Ingest.{push, pushes}
use emovis_micro_service.HttpApi.Middleware.{HttpRequest, write_header, write, returns}
use emovis_micro_service.HttpApi.Middleware.Traces.{counted, logged}
use emovis_micro_service.Metrics.{new_metrics}
use emovis_micro_service.HttpApi.Server
use emovis_micro_service.HttpApi.Middleware.Passing.{shown}
use emovis_micro_service.HttpApi.Server.{Library, Incoming, exchange, exchanges}
use emovis_micro_service.HttpApi.Server.Traces.{IsQuiet}
use emovis_micro_service.HttpApi.Telemetry.Counted.{record_all-taken}
use emovis_micro_service.HttpApi.Server.Admitted
use emovis_micro_service.HttpApi.Server.Admitted.{
  admitted, all_admitted, exchanges-pushes, sent-shown,
}
use emovis_micro_service.HttpApi.Server.Totals.{finished, exchanges-totals}
use emovis_micro_service.HttpApi.Server.Series.{exchanges-few}
use emovis_micro_service.HttpApi.Server.Answers.{Told, HasFailed, exchange-Told}
use emovis_micro_service.HttpApi.Server.Retry.{ToldAgain, exchanges-retry}
use emovis_micro_service.Examples.World.{platform, rules, system, request}
use emovis_micro_service.Examples.Requests.{api, sent, first_created, first_id}

abbrev pub library : Library
library = record {
  encode = λ v. some (lit "{}");
  takes_label = λ v. true;
  metrics_page = λ r. record { actions = write (lit "up 1") ∷ []; ending = returns };
  no_route = λ r. record {
    actions = write_header 404 ∷ write (lit "404 page not found") ∷ [];
    ending = returns;
  };
}

pub library-IsQuiet : IsQuiet library
unfolding counted logged
library-IsQuiet = record {
  page = λ r. record {
    stays = λ e. ground arith;
    codes = (tt, tt);
    uncounted = refl;
    unlogged = refl;
  };
  page_returns = λ r. refl;
  lost = λ r. record {
    stays = λ e. ground arith;
    codes = (refl, (tt, tt));
    uncounted = refl;
    unlogged = refl;
  };
  lost_returns = λ r. refl;
}

abbrev get : Text → Text → HttpRequest
get path pattern = record {
  method = lit "GET";
  path = path;
  pattern = pattern;
  inbound_id = [];
  request_id = [];
  body_limit = none;
}

abbrev post : HttpRequest
post = record (get (lit "/ingest/v1/transactions") (lit "POST /ingest/v1/transactions")) {
  method = lit "POST";
  inbound_id = lit "r1";
}

abbrev incoming : HttpRequest → Option Refusal → Text → Incoming
incoming http refusal amount = record {
  http = http;
  fresh_id = lit "r1";
  refusal = refusal;
  body = ok (request amount);
  rules = rules;
  system = system 1;
  checks = [];
  took = pos 3;
}

abbrev pub first : Incoming
first = incoming post none (lit "12.50")

abbrev between : List Incoming
between =
    incoming (get (lit "/readyz") (lit "GET /readyz")) none []
    ∷ incoming post (some (too_large 1048576)) []
    ∷ incoming (get (lit "/admin") []) none []
    ∷ []

abbrev again : Incoming
again = incoming post none (lit "99.00")

exchanges-totals_example :
    (total (exchanges library platform api (first ∷ between) (new, new_metrics)).1.http_requests
      ≡ total new_metrics.http_requests + length (first ∷ between))
    × (total (exchanges library platform api (first ∷ between) (new, new_metrics)).1.ingest_total
        ≡ total new_metrics.ingest_total
          + finished library platform api (first ∷ between) (new, new_metrics))
    × (finished library platform api (first ∷ between) (new, new_metrics)
        ≤ length (all_admitted (first ∷ between)))
exchanges-totals_example =
    exchanges-totals library platform api library-IsQuiet (first ∷ between) new new_metrics

exchanges-few_example :
    (tracked (exchanges library platform api (first ∷ between) (new, new_metrics)).1.sources ≤ 200)
    × (length (exchanges library platform api (first ∷ between) (new, new_metrics)).1.ingest_total
        ≤ 808)
    × (length
          (exchanges library platform api (first ∷ between) (new, new_metrics)).1.divergent_replays
        ≤ 202)
exchanges-few_example = exchanges-few library platform api (first ∷ between) new

exchanges-pushes_example :
    (exchanges library platform api (first ∷ between) (new, new_metrics)).0
    ≡ pushes platform api new (all_admitted (first ∷ between))
exchanges-pushes_example = exchanges-pushes library platform api (first ∷ between) new new_metrics

pub admitted-first : admitted first ≡ some (sent (lit "12.50") 1)
unfolding admitted Server.matched emovis_micro_service.Base.text_eq lit
    emovis_micro_service.HttpApi.Middleware.Accounting.inner_request
admitted-first = refl

admitted-again : admitted again ≡ some (sent (lit "99.00") 1)
unfolding admitted Server.matched emovis_micro_service.Base.text_eq lit
    emovis_micro_service.HttpApi.Middleware.Accounting.inner_request
admitted-again = refl

none_between : all_admitted between ≡ []
unfolding all_admitted Server.matched emovis_micro_service.Base.text_eq lit
none_between = refl

none_allowed : All (λ p. Unit {0}) (all_admitted between)
none_allowed = rw none_between tt

first_kept :
    (Admitted.shown_of library platform api
      (Admitted.is_lost library platform api first (sent (lit "12.50") 1) (new, new_metrics))
      (push platform api new (sent (lit "12.50") 1)).1).0
    ≡ 201
first_kept = rw (record_all-taken library.takes_label (λ v. refl) _ _ _) first_created

first_answered : (shown (Server.sent library platform api first (new, new_metrics))).0 ≡ 201
first_answered =
    ap (λ x. x.0)
      (sent-shown library platform api first (sent (lit "12.50") 1) new new_metrics library-IsQuiet
        admitted-first)
    ∙ first_kept

exchanges-retry_example :
    ToldAgain library platform api
      (exchanges library platform api (first ∷ between) (new, new_metrics)).0
      (exchanges library platform api (first ∷ between) (new, new_metrics)).1
      again
      (1 ∷ [])
exchanges-retry_example =
    exchanges-retry library platform api (memory_api-IsStore platform) (λ r. Unit)
      (λ r sys body tx a e. tt) library-IsQuiet first again between (sent (lit "12.50") 1)
      (sent (lit "99.00") 1) (request (lit "12.50")) (request (lit "99.00")) new new_metrics
      (1 ∷ []) (new-IsConsistent platform) tt none_allowed tt admitted-first admitted-again refl
      refl refl (inl first_answered) first_id

-- A client of Prometheus that takes no label: every push is recorded, and then lost for the producer.
abbrev picky : Library
picky = record library { takes_label = λ v. false }

picky-IsQuiet : IsQuiet picky
picky-IsQuiet = record {
  page = library-IsQuiet.page;
  page_returns = library-IsQuiet.page_returns;
  lost = library-IsQuiet.lost;
  lost_returns = library-IsQuiet.lost_returns;
}

exchange-Told_example :
    Told picky platform api new
      (sent (lit "12.50") 1)
      (HasFailed picky platform api
        (Admitted.is_lost picky platform api first (sent (lit "12.50") 1) (new, new_metrics))
        (push platform api new (sent (lit "12.50") 1)).1)
      (shown (Server.sent picky platform api first (new, new_metrics)))
      (exchange picky platform api first (new, new_metrics)).0
exchange-Told_example =
    exchange-Told picky platform api (memory_api-IsStore platform) (λ r. Unit)
      (λ r sys body tx a e. tt) first (sent (lit "12.50") 1) new new_metrics picky-IsQuiet
      (new-IsConsistent platform) tt admitted-first
