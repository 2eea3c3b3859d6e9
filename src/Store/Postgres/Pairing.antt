-- ===== src/Store/Postgres/Pairing.antt =====
-- The rows of the one table next to those of the other.
use mathlib.Core.List.{map-append}
use emovis_micro_service.Base.{Text, List, map, Result, ok, err, ◌≡◌, inl, inr, refl, arith}
use emovis_micro_service.Platform.{Platform}
use emovis_micro_service.Transaction.Model.{Uuid, Transaction, IngestOutcome}
use emovis_micro_service.Outbox.Event.{Event, new_transaction_received}
use emovis_micro_service.Store.Postgres.Database.{Tables, Server, stored_row}
use emovis_micro_service.Store.Postgres.{Conditions, row_of, ingest}
use emovis_micro_service.Store.Postgres.Atomic.{IsWritten, Atomic, ingest-Atomic}
use emovis_micro_service.Store.Postgres.Insertion.{kept_row}

-- The transactions of the rows and of the events, in the order of their insertion.
abbrev pub row_ids : {D : Type 0} → Tables D → List Uuid
row_ids t = map (λ r. r.id) t.transactions

abbrev pub event_ids : {D : Type 0} → Tables D → List Uuid
event_ids t = map (λ e. e.event.aggregate_id) t.outbox_events

-- Row by row, the outbox has one event for each transaction, and no other.
pub record IsPaired {D : Type 0} (t : Tables D) : Type 0 where
  pub paired : row_ids t ≡ event_ids t

module _ {D : Type 0} (platform : Platform D) (server : Server D) where
  pub event-aggregate :
      (tx : Transaction D) (id : Uuid) (event : Event)
      → new_transaction_received platform tx id ≡ ok event
      → event.aggregate_id ≡ tx.id
  unfolding new_transaction_received
  event-aggregate tx id event h = ground arith

  kept_row-id : (tx : Transaction D) (column : D) → (kept_row platform server tx column).id ≡ tx.id
  unfolding stored_row row_of
  kept_row-id tx column = refl

  IsWritten-IsPaired :
      (c : Conditions) (t : Tables D) (tx : Transaction D) (t' : Tables D)
      → IsWritten platform server c t tx t'
      → IsPaired t
      → IsPaired t'
  IsWritten-IsPaired c t tx t' w h = record {
    paired =
        rw (w.row, w.queue)
          (simp (map-append, h.paired, kept_row-id, event-aggregate tx w.event_id w.event w.built));
  }

  Atomic-IsPaired :
      (c : Conditions) (t : Tables D) (tx : Transaction D)
      (out : Tables D × Result Text (IngestOutcome D))
      → Atomic platform server c t tx out
      → IsPaired t
      → IsPaired out.0
  Atomic-IsPaired c t tx (t', ok o) (inl (w, _)) h = IsWritten-IsPaired c t tx t' w h
  Atomic-IsPaired c t tx (t', ok o) (inr m) h = rw m.same h
  Atomic-IsPaired c t tx (t', err cause) (inl same) h = rw same h
  Atomic-IsPaired c t tx (t', err cause) (inr w) h = IsWritten-IsPaired c t tx t' w h

  -- Whatever fails in a call, the tables stay paired.
  pub ingest-IsPaired :
      (c : Conditions) (t : Tables D) (tx : Transaction D)
      → IsPaired t
      → IsPaired (ingest platform server c t tx).0
  ingest-IsPaired c t tx h =
      Atomic-IsPaired c t tx (ingest platform server c t tx) (ingest-Atomic platform server c t tx)
        h
