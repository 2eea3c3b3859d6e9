-- ===== src/Examples/Edges.antt =====
-- Middleware, metrics, configuration, logging, health and the validator.
use emovis_micro_service.Base.{
  Text, lit, if◌then◌else◌, List, [], ◌∷◌, All, none, some, ◌≡◌, ◌↔◌, ◌⊎◌, refl, arith,
}
use emovis_micro_service.HttpApi.Middleware.{
  HttpRequest, returns, panics, Handler, chain, router, is_probe, recover, metrics,
}
use emovis_micro_service.HttpApi.Middleware.Traces.{
  IsHandled, sent_status, counted, logged, chain-cons,
}
use emovis_micro_service.HttpApi.Middleware.Accounting.{router-accounts}
use emovis_micro_service.Metrics.Labels.{
  SourceLabels, new_source_labels, is_seen, label, tracked, source_overflow, Section, reads, writes,
  sections,
}
use emovis_micro_service.Metrics.Labels.Bounded.{
  IsBounded, Grows, Known, sections-IsBounded, label-same,
}
use emovis_micro_service.Config.{Env, Readers, load}
use emovis_micro_service.Config.Admissible.{IsAdmissible, load_iff}
use emovis_micro_service.Logging.Redact.{Attrs, leaf, group, attr, none_left}
use emovis_micro_service.Health.{Ended, handle_ready, ready, new_report}
use emovis_micro_service.Health.Ready.{handle_ready-private}
use emovis_micro_service.Health.Checker.{Check, new_checker, register_all, ran, ran_all}
use emovis_micro_service.Health.Checker.Order.{Same, ready-any}
use mathlib.Core.List.{Permᴰ}
use emovis_micro_service.HttpApi.Contract.{
  SpecError, multi, more, no_more, schema, request, nothing, field_errors_from_spec_validation,
}
use emovis_micro_service.HttpApi.Contract.Told.{
  Named, HasNames, AllHaveNames, WrapsNames, spec_fields-Named,
}
use emovis_micro_service.Examples.World.{platform}

abbrev post : HttpRequest
post = record {
  method = lit "POST";
  path = lit "/ingest/v1/transactions";
  pattern = lit "POST /ingest/v1/transactions";
  inbound_id = [];
  request_id = [];
  body_limit = none;
}

-- A handler that panics behind nothing.
abbrev panicking : Handler
panicking r = record { actions = []; ending = panics }

panicking-IsHandled : IsHandled (panicking post)
unfolding counted logged
panicking-IsHandled = record {
  stays = λ e. ground arith;
  codes = tt;
  uncounted = refl;
  unlogged = refl;
}

router-accounts_example :
    ((router (lit "id") panicking post).ending ≡ returns)
    × (counted (router (lit "id") panicking post).actions
        ≡ sent_status (router (lit "id") panicking post).actions ∷ [])
    × (logged (router (lit "id") panicking post).actions ≡ (
        if is_probe post.path
        then []
        else sent_status (router (lit "id") panicking post).actions ∷ []))
router-accounts_example = router-accounts (lit "id") panicking post panicking-IsHandled

chain-cons_example :
    chain panicking (metrics ∷ recover ∷ []) ≡ metrics (chain panicking (recover ∷ []))
chain-cons_example = chain-cons panicking metrics (recover ∷ [])

one_place-IsBounded : IsBounded (new_source_labels 1)
unfolding emovis_micro_service.Metrics.Labels.Bounded.AllDistinct new_source_labels
one_place-IsBounded = record { count = omega arith; distinct = tt; short = tt }

-- Two calls meet at the last place.
abbrev race : List Section
race = reads (lit "a") ∷ reads (lit "b") ∷ writes (lit "a") ∷ writes (lit "b") ∷ []

sections-IsBounded_example :
    IsBounded (sections race (new_source_labels 1)).0
    × Grows (new_source_labels 1) (sections race (new_source_labels 1)).0
    × ((sections race (new_source_labels 1)).0.limit ≡ (new_source_labels 1).limit)
    × All (Known (sections race (new_source_labels 1)).0) (sections race (new_source_labels 1)).1
sections-IsBounded_example = sections-IsBounded race (new_source_labels 1) one_place-IsBounded

abbrev readers : Readers
readers = record { parse_int = λ s. none; parse_duration = λ s. none; duration_text = λ d. [] }

abbrev unset : Env
unset = λ key. none

load_iff_example : ((load platform readers unset).1 ≡ []) ↔ IsAdmissible platform readers unset
load_iff_example = load_iff platform readers unset

abbrev attrs : Attrs
attrs = attr (leaf (lit "source") (lit "lane-7")) (
    attr (group (lit "vehicle") (attr (leaf (lit "Plate_Number") (lit "ABC123")) none_left))
      none_left)

abbrev ended : Text → List Ended
ended cause =
    record { name = lit "database"; latency = lit "2ms"; failure = some cause }
    ∷ record { name = lit "cache"; latency = lit "1ms"; failure = none }
    ∷ []

both_fail : (some (lit "refused") ≡ none) ↔ (some (lit "password wrong") ≡ none)
both_fail = (λ e. absurd (ground arith), λ e. absurd (ground arith))

handle_ready-private_example :
    ((handle_ready (ready (ended (lit "refused")) new_report)).code
      ≡ (handle_ready (ready (ended (lit "password wrong")) new_report)).code)
    × ((handle_ready (ready (ended (lit "refused")) new_report)).status
        ≡ (handle_ready (ready (ended (lit "password wrong")) new_report)).status)
    × ((handle_ready (ready (ended (lit "refused")) new_report)).checks
        ≡ (handle_ready (ready (ended (lit "password wrong")) new_report)).checks)
handle_ready-private_example =
    handle_ready-private (ended (lit "refused")) (ended (lit "password wrong"))
      (refl, refl, both_fail, (refl, refl, (λ e. refl, λ e. refl), tt))

abbrev spec_error : SpecError
spec_error = multi (
    more
      (schema
        (record {
          pointer = lit "plate" ∷ lit "number" ∷ [];
          schema_field = lit "required";
          format = [];
          reason = [];
        })
        nothing)
      (more (request (record { parameter = some (lit "limit"); reason = []; cause = none }) nothing)
        no_more))

spec_error-HasNames : HasNames spec_error
unfolding AllHaveNames HasNames WrapsNames lit
spec_error-HasNames = (tt, ((refl, tt), tt))

spec_fields-Named_example : All Named (field_errors_from_spec_validation spec_error)
spec_fields-Named_example = spec_fields-Named spec_error spec_error-HasNames

-- A check of the database that is registered again, and one of a cache.
abbrev registered : List (Text × Check)
registered =
    (lit "database", λ timeout. (lit "9s", some (lit "refused")))
    ∷ (lit "cache", λ timeout. (lit "1ms", none))
    ∷ (lit "database", λ timeout. (lit "2ms", none))
    ∷ []

abbrev cache_first : List Ended
cache_first =
    record { name = lit "cache"; latency = lit "1ms"; failure = none }
    ∷ record { name = lit "database"; latency = lit "2ms"; failure = none }
    ∷ []

ended_so : Permᴰ (ran (register_all registered (new_checker 2))) cache_first
unfolding ran ran_all register_all new_checker emovis_micro_service.Health.Checker.register
    emovis_micro_service.Base.Maps.put emovis_micro_service.Base.text_eq lit
ended_so = Permᴰ.swap refl refl

ready-any_example :
    Same
      (ready cache_first new_report)
      (ready (ran (register_all registered (new_checker 2))) new_report)
    × (((handle_ready (ready cache_first new_report)).code ≡ 200)
        ↔ All (λ e. e.failure ≡ none) (ran (register_all registered (new_checker 2))))
ready-any_example = ready-any 2 registered cache_first ended_so
