-- ===== src/System/Service/Steps.antt =====
-- What a turn of the service does to the tables.
use mathlib.Core.List.{Memᴰ, map-append}
use mathlib.Core.List.Memᴰ
use mathlib.Core.Path.{subst}
use emovis_micro_service.Base.{
  Text, List, [], ◌∷◌, Option, none, some, Result, ok, err, ◌≡◌, ◌⊎◌, inl, inr, refl, sym, ap,
}
use emovis_micro_service.Platform.{Platform}
use emovis_micro_service.Transaction.Model.{Uuid, Transaction, IngestOutcome}
use emovis_micro_service.Transaction.Validate.{Verdict, accepted, rejected, faulted, accept}
use emovis_micro_service.Metrics.{Metrics}
use emovis_micro_service.Outbox.Event.{Event}
use emovis_micro_service.Outbox.Backoff.{FloatApi}
use emovis_micro_service.Store.Postgres.Database.{Tables, Server}
use emovis_micro_service.Store.Postgres.{Conditions, ingest}
use emovis_micro_service.Store.Postgres.Atomic.{Atomic, ingest-Atomic}
use emovis_micro_service.Store.Postgres.Pairing.{row_ids}
use emovis_micro_service.Store.Postgres.Contract.{Session, postgres_api}
use emovis_micro_service.HttpApi.Request.{IngestRequest}
use emovis_micro_service.HttpApi.Mapping.{to_submission}
use emovis_micro_service.HttpApi.Ingest.{Push, push, judged, stored_reply, ingest_transaction}
use emovis_micro_service.HttpApi.Server.{Library, Incoming, exchange}
use emovis_micro_service.HttpApi.Server.Admitted.{admitted, pushed, exchange-pushed}
use emovis_micro_service.System.{relayed}
use emovis_micro_service.System.History.{History, ingested, passed}
use emovis_micro_service.System.Service.{Service, Turn, serves, passes_over, turn, turns}

module _ {D : Type 0} (platform : Platform D) (server : Server D) where
  -- The tables are left alone, or a call of the store was made on them.
  abbrev pub Called : Tables D → Tables D → Type 0
  Called t t' =
      (t' ≡ t)
      ⊎ ((c : Conditions) × (tx : Transaction D) × (t' ≡ (ingest platform server c t tx).0))

  stored_reply-tables :
      (p : Push) (tx : Transaction D) (c : Session D × Result Text (IngestOutcome D))
      → (stored_reply platform p.request_id (postgres_api platform server) p.rules p.system tx c).0
        ≡ c.0
  unfolding stored_reply
  stored_reply-tables p tx (s, ok o) = refl
  stored_reply-tables p tx (s, err cause) = refl

  judged-Called :
      (p : Push) (s : Session D) (body : IngestRequest) (v : Verdict D)
      → Called s.tables
          (judged platform p.request_id
            (postgres_api platform server)
            p.rules
            p.system
            s
            body
            v).0.tables
  unfolding judged
  judged-Called p s body (faulted cause) = inl refl
  judged-Called p s body (rejected problems) = inl refl
  judged-Called p s body (accepted tx) = inr (
    s.conditions s.calls,
    tx,
    ap (λ x. x.tables) (stored_reply-tables p tx ((postgres_api platform server).ingest s tx)),
  )

  received-Called :
      (p : Push) (s : Session D) (request : Result Text IngestRequest)
      → Called s.tables
          (ingest_transaction platform p.request_id
            (postgres_api platform server)
            p.rules
            p.system
            s
            request).0.tables
  unfolding ingest_transaction
  received-Called p s (err cause) = inl refl
  received-Called p s (ok body) =
      judged-Called p s body (accept platform p.rules p.system (to_submission body))

  push-Called :
      (p : Push) (s : Session D)
      → Called s.tables (push platform (postgres_api platform server) s p).0.tables
  unfolding push
  push-Called p s = received-Called p s p.request

  pushed-Called :
      (library : Library) (o : Option Push) (s : Session D)
      → Called s.tables (pushed library platform (postgres_api platform server) o s).tables
  pushed-Called library none s = inl refl
  pushed-Called library (some p) s = push-Called p s

  pub exchange-Called :
      (library : Library) (c : Incoming) (s : Session D) (m : Metrics)
      → Called s.tables (exchange library platform (postgres_api platform server) c (s, m)).0.tables
  exchange-Called library c s m =
      subst (λ (s' : Session D). Called s.tables s'.tables)
        (sym (exchange-pushed library platform (postgres_api platform server) c s m))
        (pushed-Called library (admitted c) s)

  Atomic-rows :
      (c : Conditions) (t : Tables D) (tx : Transaction D)
      (r : Tables D × Result Text (IngestOutcome D)) (id : Uuid)
      → Atomic platform server c t tx r
      → Memᴰ id (row_ids t)
      → Memᴰ id (row_ids r.0)
  Atomic-rows c t tx (t', ok o) id (inl (w, _)) m = rw (w.row, map-append) (Memᴰ.append_left _ m)
  Atomic-rows c t tx (t', ok o) id (inr k) m = rw k.same m
  Atomic-rows c t tx (t', err cause) id (inl same) m = rw same m
  Atomic-rows c t tx (t', err cause) id (inr w) m = rw (w.row, map-append) (Memᴰ.append_left _ m)

  Called-rows :
      (t t' : Tables D) (id : Uuid) → Called t t' → Memᴰ id (row_ids t) → Memᴰ id (row_ids t')
  Called-rows t t' id (inl e) m = rw e m
  Called-rows t t' id (inr (c, tx, e)) m = rw e (
      Atomic-rows c t tx (ingest platform server c t tx) id (ingest-Atomic platform server c t tx)
        m)

  module _ (library : Library) (float : FloatApi) where
    Called-History :
        (t t' : Tables D) (d : List Event)
        → Called t t'
        → History platform server float t d
        → History platform server float t' d
    Called-History t t' d (inl e) h = rw e h
    Called-History t t' d (inr (c, tx, e)) h = rw e (ingested c t d tx h)

    turn-History :
        (x : Turn) (v : Service D)
        → History platform server float v.session.tables v.told
        → History platform server float
            (turn library platform server float x v).session.tables
            (turn library platform server float x v).told
    unfolding turn
    turn-History (serves c) v h =
        Called-History v.session.tables _ v.told (exchange-Called library c v.session v.metrics) h
    turn-History (passes_over opts c) v h = passed opts c v.session.tables v.told h

    pub turns-History :
        (xs : List Turn) (v : Service D)
        → History platform server float v.session.tables v.told
        → History platform server float
            (turns library platform server float xs v).session.tables
            (turns library platform server float xs v).told
    unfolding turns
    turns-History [] v h = h
    turns-History (x ∷ xs) v h =
        turns-History xs (turn library platform server float x v) (turn-History x v h)

    turn-rows :
        (x : Turn) (v : Service D) (id : Uuid)
        → Memᴰ id (row_ids v.session.tables)
        → Memᴰ id (row_ids (turn library platform server float x v).session.tables)
    unfolding turn relayed
    turn-rows (serves c) v id m =
        Called-rows v.session.tables _ id (exchange-Called library c v.session v.metrics) m
    turn-rows (passes_over opts c) v id m = m

    -- What is recorded stays so.
    pub turns-rows :
        (xs : List Turn) (v : Service D) (id : Uuid)
        → Memᴰ id (row_ids v.session.tables)
        → Memᴰ id (row_ids (turns library platform server float xs v).session.tables)
    unfolding turns
    turns-rows [] v id m = m
    turns-rows (x ∷ xs) v id m =
        turns-rows xs (turn library platform server float x v) id (turn-rows x v id m)
