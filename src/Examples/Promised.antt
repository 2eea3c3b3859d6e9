-- ===== src/Examples/Promised.antt =====
-- The service from the first push to the publisher, with a broker that is away at first.
use mathlib.Core.List.{Memᴰ}
use emovis_micro_service.Base.{
  Text, ℕ, ◌≤◌, ◌*◌, lit, All, length, List, [], ◌∷◌, ◌++◌, false, some, ◌≡◌, ◌⊎◌, inl, refl, ap,
  ◌∙◌,
}
use emovis_micro_service.Outbox.Event.{Event}
use emovis_micro_service.Outbox.Backoff.{default_relay_options}
use emovis_micro_service.Outbox.Relay.Passes.{Ready, taken}
use emovis_micro_service.Outbox.Relay.{pending_count}
use emovis_micro_service.Metrics.{new_metrics}
use emovis_micro_service.Store.Postgres.{Conditions}
use emovis_micro_service.Store.Postgres.Database.{Tables}
use emovis_micro_service.Store.Postgres.Contract.{Session, postgres_api}
use emovis_micro_service.Store.Interface.{StoreApi}
use emovis_micro_service.HttpApi.Ingest.{push, recorded}
use emovis_micro_service.HttpApi.Ingest.Retry.{body_id}
use emovis_micro_service.HttpApi.Middleware.Passing.{shown}
use emovis_micro_service.HttpApi.Server.{sent}
use emovis_micro_service.HttpApi.Server.Admitted.{
  is_lost, shown_of, pushed, exchange-pushed, sent-shown,
}
use emovis_micro_service.System.{relayed}
use emovis_micro_service.HttpApi.Telemetry.Counted.{record_all-taken}
use emovis_micro_service.System.Service.{Turn, passes_over}
use emovis_micro_service.System.Service.Promise.{settled, answered-Told}
use emovis_micro_service.Examples.World.{toll, platform, server, calm, float, request}
use emovis_micro_service.Examples.Requests.{accept_first}
use emovis_micro_service.Examples.Requests
use emovis_micro_service.Examples.Stored.{usd_known}
use emovis_micro_service.Examples.Histories.{
  one_recorded, refusing, refused, later, later-IsHealthy, later-Ready, one_left,
}
use emovis_micro_service.Examples.Served.{library, library-IsQuiet, first, admitted-first}

abbrev api : StoreApi (Session Text) Text
api = postgres_api platform server

abbrev conditions : ℕ → Conditions
conditions n = calm 7

abbrev untouched : Session Text
untouched = record {
  tables = record { transactions = []; outbox_events = [] };
  conditions = conditions;
  calls = 0;
}

abbrev after : List Turn
after = passes_over default_relay_options refusing ∷ []

push_stored : push platform api untouched (Requests.sent (lit "12.50") 1) ≡ (
  record { tables = one_recorded; conditions = conditions; calls = 1 },
  recorded platform
      (lit "r1")
      (toll 1)
      (record { transaction = toll 1; duplicate = false; divergent = false }),
)
unfolding push emovis_micro_service.HttpApi.Ingest.ingest_transaction
    emovis_micro_service.Store.Postgres.ingest emovis_micro_service.Store.Postgres.ingest_in_tx
    emovis_micro_service.Store.Postgres.Database.insert_transaction
    emovis_micro_service.Store.Postgres.Database.meets_checks
    emovis_micro_service.Store.Postgres.Database.stored_row
    emovis_micro_service.Store.Postgres.row_of lit
    emovis_micro_service.Store.Postgres.Database.find_row
    emovis_micro_service.Store.Postgres.Database.has_id
    emovis_micro_service.Store.Postgres.write_outbox_event
    emovis_micro_service.Outbox.Event.new_transaction_received
    emovis_micro_service.Store.Postgres.Database.insert_outbox_event
    emovis_micro_service.Store.Postgres.Database.has_event
    emovis_micro_service.Outbox.Event.event_type_transaction_received
    emovis_micro_service.Outbox.Event.body_of emovis_micro_service.Base.Clock.to_utc
push_stored = simp accept_first refl

push_created : (push platform api untouched (Requests.sent (lit "12.50") 1)).1.response.status ≡ 201
unfolding recorded
push_created = ap (λ x. x.1.response.status) push_stored

push_id :
    body_id (push platform api untouched (Requests.sent (lit "12.50") 1)).1.response.body
    ≡ some (1 ∷ [])
unfolding recorded emovis_micro_service.HttpApi.Mapping.to_result
push_id = ap (λ x. body_id x.1.response.body) push_stored

first_kept :
    (shown_of library platform api
      (is_lost library platform api first (Requests.sent (lit "12.50") 1) (untouched, new_metrics))
      (push platform api untouched (Requests.sent (lit "12.50") 1)).1).0
    ≡ 201
first_kept = rw (record_all-taken library.takes_label (λ v. refl) _ _ _) push_created

first-sent : (shown (sent library platform api first (untouched, new_metrics))).0 ≡ 201
first-sent =
    ap (λ x. x.0)
      (sent-shown library platform api first (Requests.sent (lit "12.50") 1) untouched new_metrics
        library-IsQuiet admitted-first)
    ∙ first_kept

settled_tables :
    (settled library platform server float [] first after conditions new_metrics).session.tables
    ≡ refused
unfolding emovis_micro_service.System.Service.turns emovis_micro_service.System.Service.turn
settled_tables =
    ap (λ s. relayed platform server float default_relay_options refusing s.tables)
      (exchange-pushed library platform api first untouched new_metrics
        ∙ ap (λ o. pushed library platform api o untouched) admitted-first)
    ∙ ap (λ x. relayed platform server float default_relay_options refusing x.0.tables) push_stored

settled-Ready :
    All
      (Ready
        (settled library platform server float [] first after conditions
          new_metrics).session.tables.outbox_events)
      (later ∷ [])
settled-Ready = rw settled_tables (later-Ready, tt)

few_left :
    pending_count
      (settled library platform server float [] first after conditions
        new_metrics).session.tables.outbox_events
    ≤ length (later ∷ []) * default_relay_options.batch_size
few_left = rw settled_tables one_left

answered-Told_example :
    (e : Event) × Memᴰ e (
      (settled library platform server float [] first after conditions new_metrics).told
      ++ taken float default_relay_options
          (later ∷ [])
          (settled library platform server float [] first after conditions
            new_metrics).session.tables.outbox_events)
    × (platform.uuid_text e.aggregate_id ≡ 1 ∷ [])
unfolding emovis_micro_service.System.Service.turns
answered-Told_example =
    answered-Told library platform server float [] after first (Requests.sent (lit "12.50") 1)
      (request (lit "12.50")) (1 ∷ []) conditions new_metrics default_relay_options (later ∷ [])
      library-IsQuiet tt usd_known admitted-first refl (inl first-sent) push_id
      (later-IsHealthy, tt) settled-Ready few_left
