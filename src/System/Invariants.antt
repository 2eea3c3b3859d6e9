-- ===== src/System/Invariants.antt =====
-- The tables in the states that the service can reach.
use mathlib.Core.Path.{subst}
use emovis_micro_service.Base.{
  Text, List, [], ◌∷◌, map, ◌≡◌, refl, ap, sym, ◌∙◌, Result, ok, err, inl, inr,
}
use emovis_micro_service.Platform.{Platform}
use emovis_micro_service.Transaction.Model.{Transaction, IngestOutcome, key_of}
use emovis_micro_service.Outbox.Backoff.{FloatApi, Tuning}
use emovis_micro_service.Outbox.Relay.{Pass, run_once}
use emovis_micro_service.Outbox.Relay.Delivery.{run_once-Follows}
use emovis_micro_service.Outbox.Relay.Rows.{Follows-events}
use emovis_micro_service.Store.Postgres.Database.{
  EventRow, Tables, Server, stored_row, find_row, row_key,
}
use emovis_micro_service.Store.Postgres.{Conditions, row_of, ingest}
use emovis_micro_service.Store.Postgres.Pairing.{IsPaired, ingest-IsPaired}
use emovis_micro_service.Outbox.Relay.Drain.{IsUnique}
use emovis_micro_service.Store.Postgres.Atomic.{IsWritten, Atomic, ingest-Atomic}
use emovis_micro_service.Store.Postgres.Insertion.{kept_row}
use emovis_micro_service.System.Unique.{
  HasDistinctKeys, HasDistinctKeys-append, IsUnique-append, IsUnique-Follows,
}
use emovis_micro_service.System.{relayed, ingests, relays, Reachable, migrated, then_step}

module _ {D : Type 0} (platform : Platform D) (server : Server D) (float : FloatApi) where
  pub aggregates :
      (rows : List EventRow)
      → map (λ e. e.event.aggregate_id) rows ≡ map (λ e. e.aggregate_id) (map (λ r. r.event) rows)
  aggregates [] = refl
  aggregates (r ∷ rows) = ap (λ l. r.event.aggregate_id ∷ l) (aggregates rows)

  relayed-IsPaired :
      (opts : Tuning) (c : Pass) (t : Tables D)
      → IsPaired t
      → IsPaired (relayed platform server float opts c t)
  unfolding relayed
  relayed-IsPaired opts c t h = record {
    paired =
        h.paired
        ∙ aggregates t.outbox_events
        ∙ sym (
            ap (map (λ e. e.aggregate_id))
              (Follows-events _ t.outbox_events _ (run_once-Follows float opts c t.outbox_events)))
        ∙ sym (aggregates (run_once float opts c t.outbox_events).0.rows);
  }

  kept_row-key :
      (tx : Transaction D) (column : D) → row_key (kept_row platform server tx column) ≡ key_of tx
  unfolding row_key key_of stored_row row_of
  kept_row-key tx column = refl

  -- What holds of the tables between two steps.
  pub record IsSound (t : Tables D) : Type 0 where
    pub pairs : IsPaired t
    pub keys : HasDistinctKeys t.transactions
    pub events : IsUnique t.outbox_events

  written-keys :
      (c : Conditions) (t : Tables D) (tx : Transaction D) (t' : Tables D)
      → IsWritten platform server c t tx t'
      → HasDistinctKeys t.transactions × IsUnique t.outbox_events
      → HasDistinctKeys t'.transactions × IsUnique t'.outbox_events
  written-keys c t tx t' w (h, u) = (
    subst HasDistinctKeys (sym w.row) (
        HasDistinctKeys-append t.transactions _
          (ap (λ k. find_row k t.transactions) (kept_row-key tx w.column) ∙ w.free) h),
    subst IsUnique (sym w.queue) (IsUnique-append t.outbox_events _ w.fresh u),
  )

  Atomic-keys :
      (c : Conditions) (t : Tables D) (tx : Transaction D)
      (r : Tables D × Result Text (IngestOutcome D))
      → Atomic platform server c t tx r
      → HasDistinctKeys t.transactions × IsUnique t.outbox_events
      → HasDistinctKeys r.0.transactions × IsUnique r.0.outbox_events
  Atomic-keys c t tx (t', ok o) (inl (w, _)) h = written-keys c t tx t' w h
  Atomic-keys c t tx (t', ok o) (inr m) h = rw m.same h
  Atomic-keys c t tx (t', err cause) (inl same) h = rw same h
  Atomic-keys c t tx (t', err cause) (inr w) h = written-keys c t tx t' w h

  ingest-IsSound :
      (c : Conditions) (t : Tables D) (tx : Transaction D)
      → IsSound t
      → IsSound (ingest platform server c t tx).0
  ingest-IsSound c t tx h =
      let (keys, events) =
        Atomic-keys c t tx _ (ingest-Atomic platform server c t tx) (h.keys, h.events) in
      record {
        pairs = ingest-IsPaired platform server c t tx h.pairs;
        keys = keys;
        events = events;
      }

  relayed-IsSound :
      (opts : Tuning) (c : Pass) (t : Tables D)
      → IsSound t
      → IsSound (relayed platform server float opts c t)
  unfolding relayed
  relayed-IsSound opts c t h = record {
    pairs = relayed-IsPaired opts c t h.pairs;
    keys = h.keys;
    events =
        IsUnique-Follows _ t.outbox_events _ (run_once-Follows float opts c t.outbox_events)
          h.events;
  }

  -- In every state that the service reaches by ingesting and relaying in any order, whatever failed
  -- on the way: the outbox holds one event for each recorded transaction, in the order of their
  -- insertion, and no other event; no two transactions have one key; and no two events have one
  -- identifier.
  pub Reachable-IsSound : (t : Tables D) → Reachable platform server float t → IsSound t
  unfolding HasDistinctKeys IsUnique
  Reachable-IsSound _ migrated = record { pairs = record { paired = refl }; keys = tt; events = tt }
  Reachable-IsSound _ (then_step t _ r (ingests c _ tx)) =
      ingest-IsSound c t tx (Reachable-IsSound t r)
  Reachable-IsSound _ (then_step t _ r (relays opts c _)) =
      relayed-IsSound opts c t (Reachable-IsSound t r)
