-- ===== src/System/Service/Promise.antt =====
-- A success that a client is sent, and what the publisher takes later.
use mathlib.Core.List.{Memᴰ}
use mathlib.Core.Path.{subst}
use emovis_micro_service.Base.{
  ℕ, ◌*◌, ◌≤◌, Text, List, [], ◌∷◌, ◌++◌, All, length, some, ok, ◌≡◌, ◌⊎◌, sym, ◌∙◌, ap,
}
use emovis_micro_service.Platform.{Platform}
use emovis_micro_service.Transaction.Model.{Uuid}
use emovis_micro_service.Metrics.{Metrics}
use emovis_micro_service.Outbox.Event.{Event}
use emovis_micro_service.Outbox.Backoff.{FloatApi, Tuning}
use emovis_micro_service.Outbox.Relay.{Pass, pending_count}
use emovis_micro_service.Outbox.Relay.Healthy.{IsHealthy}
use emovis_micro_service.Outbox.Relay.Passes.{Ready, taken}
use emovis_micro_service.Store.Postgres.{Conditions}
use emovis_micro_service.Store.Postgres.Database.{Server}
use emovis_micro_service.Store.Postgres.Pairing.{row_ids}
use emovis_micro_service.Store.Postgres.RoundTrip.{HasKnownDefault}
use emovis_micro_service.Store.Postgres.Contract.{
  Session, postgres_api, IsReadable, postgres_api-IsStore,
}
use emovis_micro_service.Store.Postgres.Found.{stored-Memᴰ}
use emovis_micro_service.HttpApi.Request.{IngestRequest}
use emovis_micro_service.HttpApi.Ingest.{Push, push}
use emovis_micro_service.HttpApi.Ingest.Outcomes.{Answered}
use emovis_micro_service.HttpApi.Ingest.Retry.{IsSuccess, body_id, request_key, success-HasId}
use emovis_micro_service.HttpApi.Ingest.History.{push-Answered}
use emovis_micro_service.HttpApi.Middleware.Passing.{shown}
use emovis_micro_service.HttpApi.Server.{Library, Incoming, sent}
use emovis_micro_service.HttpApi.Server.Traces.{IsQuiet}
use emovis_micro_service.HttpApi.Server.Admitted.{admitted, pushed, exchange-pushed, success-shown}
use emovis_micro_service.System.History.{History, began}
use emovis_micro_service.System.Told.{drained-Told}
use emovis_micro_service.System.Service.{Service, Turn, serves, turn, turns}
use emovis_micro_service.System.Service.Steps.{turns-History, turns-rows}
use emovis_micro_service.System.Service.Readable.{HasKnownRules, stores, turns-IsReadable}

module _ {D : Type 0} (library : Library) (platform : Platform D) (server : Server D)
    (float : FloatApi) where
  -- A service on a database that was just migrated.
  abbrev pub started : (ℕ → Conditions) → Metrics → Service D
  started conditions m = record {
    session = record {
      tables = record { transactions = []; outbox_events = [] };
      conditions = conditions;
      calls = 0;
    };
    metrics = m;
    told = [];
  }

  -- The service before a request, and after it and what follows.
  abbrev pub reached : List Turn → (ℕ → Conditions) → Metrics → Service D
  reached before conditions m = turns library platform server float before (started conditions m)

  -- What a request meets.
  abbrev pub asked : List Turn → (ℕ → Conditions) → Metrics → Session D × Metrics
  asked before conditions m =
      ((reached before conditions m).session, (reached before conditions m).metrics)

  abbrev pub settled : List Turn → Incoming → List Turn → (ℕ → Conditions) → Metrics → Service D
  settled before c after conditions m =
      turns library platform server float after
        (turn library platform server float (serves c) (reached before conditions m))

  settled-History :
      (before after : List Turn) (c : Incoming) (conditions : ℕ → Conditions) (m : Metrics)
      → History platform server float
          (settled before c after conditions m).session.tables
          (settled before c after conditions m).told
  unfolding turns
  settled-History before after c conditions m =
      turns-History platform server library float after _ (
        turns-History platform server library float (serves c ∷ []) (reached before conditions m)
          (turns-History platform server library float before (started conditions m) began))

  -- A push that succeeded on a readable store left a row with the identifier of the answer.
  success-row :
      (s : Session D) (p : Push) (body : IngestRequest) (id : Text)
      → IsReadable platform server s
      → HasKnownDefault platform p.rules
      → p.request ≡ ok body
      → IsSuccess platform
          (postgres_api platform server)
          (push platform (postgres_api platform server) s p).1.response
      → body_id (push platform (postgres_api platform server) s p).1.response.body ≡ some id
      → (u : Uuid) × Memᴰ u (row_ids (push platform (postgres_api platform server) s p).0.tables)
        × (platform.uuid_text u ≡ id)
  success-row s p body id v known r good named =
      let api = postgres_api platform server in
      let store = postgres_api-IsStore platform server in
      let out = push platform api s p in
      let (tx, digest, held, same) =
        success-HasId platform api store p.request_id p.rules p.system s body out id
          (subst (λ x. Answered platform p.request_id api p.rules p.system s x out) r
            (push-Answered platform api store (HasKnownDefault platform)
              (stores library platform server float) s p known v))
          good named in
      (tx.id, stored-Memᴰ platform server out.0 (request_key body) tx digest held, same)

  -- A push that succeeded left its row, and what follows keeps it.
  success-settled :
      (before after : List Turn) (c : Incoming) (conditions : ℕ → Conditions) (m : Metrics)
      (p : Push) (u : Uuid)
      → admitted c ≡ some p
      → Memᴰ u (
          row_ids
            (push platform
              (postgres_api platform server)
              (reached before conditions m).session
              p).0.tables)
      → Memᴰ u (row_ids (settled before c after conditions m).session.tables)
  unfolding turn
  success-settled before after c conditions m p u e held =
      let v = reached before conditions m in
      let api = postgres_api platform server in
      turns-rows platform server library float after
        (turn library platform server float (serves c) v) u
        (subst (λ (s : Session D). Memᴰ u (row_ids s.tables))
          (sym (
            exchange-pushed library platform api c v.session v.metrics
            ∙ ap (λ o. pushed library platform api o v.session) e))
          held)

  -- A service that starts on an empty database serves requests and lets relays pass, in any order and
  -- with whatever failing. If the client of a push that the contract admits is sent 200 or 201 with an
  -- identifier, then, whatever follows, once enough passes are made in which nothing fails and
  -- everything that waits is due, the publisher has taken an event about a transaction of that
  -- identifier. The default currencies of what was served up to then are in the table, and what the
  -- server writes besides its routes is quiet.
  pub answered-Told :
      (before after : List Turn) (c : Incoming) (p : Push) (body : IngestRequest) (id : Text)
      (conditions : ℕ → Conditions) (m : Metrics) (opts : Tuning) (cs : List Pass)
      → IsQuiet library
      → All (HasKnownRules library platform server float) before
      → HasKnownDefault platform p.rules
      → admitted c ≡ some p
      → p.request ≡ ok body
      → ((shown
            (sent library platform (postgres_api platform server) c (asked before conditions m))).0
          ≡ 201)
        ⊎ ((shown (
              sent library platform (postgres_api platform server) c (asked before conditions m))).0
            ≡ 200)
      → body_id
          (push platform
            (postgres_api platform server)
            (reached before conditions m).session
            p).1.response.body
        ≡ some id
      → All IsHealthy cs
      → All (Ready (settled before c after conditions m).session.tables.outbox_events) cs
      → pending_count (settled before c after conditions m).session.tables.outbox_events
        ≤ length cs * opts.batch_size
      → (e : Event) × Memᴰ e (
          (settled before c after conditions m).told
          ++ taken float opts cs (settled before c after conditions m).session.tables.outbox_events)
        × (platform.uuid_text e.aggregate_id ≡ id)
  answered-Told before after c p body id conditions m opts cs quiet set known e r success named
        healthy ready enough =
      let v = reached before conditions m in
      let w = settled before c after conditions m in
      let good : IsSuccess platform (postgres_api platform server)
          (push platform (postgres_api platform server) v.session p).1.response =
        success-shown library platform (postgres_api platform server) c p v.session v.metrics quiet
          e success in
      let readable =
        turns-IsReadable library platform server float before (started conditions m) set tt in
      let (u, held, same) = success-row v.session p body id readable known r good named in
      let (event, was_taken, about) =
        drained-Told platform server float opts cs w.session.tables w.told u
          (settled-History before after c conditions m) healthy ready enough
          (success-settled before after c conditions m p u e held) in
      (event, was_taken, ap platform.uuid_text about ∙ same)
