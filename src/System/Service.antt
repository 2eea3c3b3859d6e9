-- ===== src/System/Service.antt =====
-- The whole service: the server on the durable store and the relay on the same database, with what the
-- collectors hold and what the publisher has taken.
pub mod Steps
pub mod Readable
pub mod Promise
use emovis_micro_service.Base.{List, [], ◌∷◌, ◌++◌}
use emovis_micro_service.Platform.{Platform}
use emovis_micro_service.Metrics.{Metrics}
use emovis_micro_service.Outbox.Event.{Event}
use emovis_micro_service.Outbox.Backoff.{FloatApi, Tuning}
use emovis_micro_service.Outbox.Relay.{Pass, run_once}
use emovis_micro_service.Store.Postgres.Database.{Server}
use emovis_micro_service.Store.Postgres.Contract.{Session, postgres_api}
use emovis_micro_service.HttpApi.Server.{Library, Incoming, exchange}
use emovis_micro_service.System.{relayed}

pub record Service (D : Type 0) : Type 0 where
  pub session : Session D
  pub metrics : Metrics
  pub told : List Event

-- What happens next: a request is served, or a relay makes a pass.
pub data Turn : Type 0 where
  serves : Incoming → Turn
  passes_over : Tuning → Pass → Turn

module _ {D : Type 0} (library : Library) (platform : Platform D) (server : Server D)
    (float : FloatApi) where
  unfoldable pub turn : Turn → Service D → Service D
  turn (serves c) v =
      let (s, m) =
        exchange library platform (postgres_api platform server) c (v.session, v.metrics) in
      record { session = s; metrics = m; told = v.told }
  turn (passes_over opts c) v = record v {
    session = record v.session { tables = relayed platform server float opts c v.session.tables };
    told = v.told ++ (run_once float opts c v.session.tables.outbox_events).0.delivered;
  }

  unfoldable pub turns : List Turn → Service D → Service D
  unfolding turn
  turns [] v = v
  turns (t ∷ ts) v = turns ts (turn t v)
