-- ===== src/System.antt =====
-- The service as a whole: requests that are ingested and passes of the relay, in any order, on the
-- tables of one database. A call of the store and a pass of the relay are database transactions, and
-- one step each.
pub mod Invariants
pub mod Unique
pub mod History
pub mod Told
pub mod Service
use emovis_micro_service.Base.{List, [], ◌∷◌}
use emovis_micro_service.Platform.{Platform}
use emovis_micro_service.Transaction.Model.{Transaction}
use emovis_micro_service.Outbox.Backoff.{FloatApi, Tuning}
use emovis_micro_service.Outbox.Relay.{Pass, run_once}
use emovis_micro_service.Store.Postgres.Database.{Tables, Server}
use emovis_micro_service.Store.Postgres.{Conditions, ingest}

module _ {D : Type 0} (platform : Platform D) (server : Server D) (float : FloatApi) where
  -- The tables after a pass.
  unfoldable pub relayed : Tuning → Pass → Tables D → Tables D
  relayed opts c t = record t { outbox_events = (run_once float opts c t.outbox_events).0.rows }

  pub data Step : Tables D → Tables D → Type 0 where
    ingests :
        (c : Conditions) (t : Tables D) (tx : Transaction D)
        → Step t (ingest platform server c t tx).0
    relays : (opts : Tuning) (c : Pass) (t : Tables D) → Step t (relayed opts c t)

  pub data Reachable : Tables D → Type 0 where
    migrated : Reachable (record { transactions = []; outbox_events = [] })
    then_step : (t t' : Tables D) → Reachable t → Step t t' → Reachable t'
