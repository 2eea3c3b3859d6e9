-- ===== src/System/History.antt =====
-- The service with what its publisher has taken so far.
use mathlib.Core.List.{Memᴰ, map-append}
use mathlib.Core.List.Memᴰ
use emovis_micro_service.Base.{
  Text, true, List, [], ◌∷◌, ◌++◌, map, ◌≡◌, refl, arith, Result, ok, err, inl, inr, All,
  All-append, All-imp, ◌⊎◌,
}
use emovis_micro_service.Platform.{Platform}
use emovis_micro_service.Transaction.Model.{Transaction, IngestOutcome}
use emovis_micro_service.Outbox.Event.{Event}
use emovis_micro_service.Outbox.Backoff.{FloatApi, Tuning}
use emovis_micro_service.Outbox.Relay.{Pass, is_pending, run_once}
use emovis_micro_service.Outbox.Relay.Delivery.{run_once-Follows}
use emovis_micro_service.Outbox.Relay.Rows.{
  was_delivered, was_delivered-append, was_delivered-prepend, Follows, Follows-events,
}
use emovis_micro_service.Outbox.Relay.Taken.{run_once-All}
use emovis_micro_service.Store.Postgres.Database.{EventRow, Tables, Server}
use emovis_micro_service.Store.Postgres.{Conditions, ingest}
use emovis_micro_service.Store.Postgres.Atomic.{IsWritten, Atomic, ingest-Atomic, queued}
use emovis_micro_service.System.{relayed, ingests, relays, Reachable, migrated, then_step}

module _ {D : Type 0} (platform : Platform D) (server : Server D) (float : FloatApi) where
  -- Any order of ingests and passes, with the events that the publisher took, oldest first.
  pub data History : Tables D → List Event → Type 0 where
    began : History (record { transactions = []; outbox_events = [] }) []
    ingested :
        (c : Conditions) (t : Tables D) (d : List Event) (tx : Transaction D)
        → History t d
        → History (ingest platform server c t tx).0 d
    passed :
        (opts : Tuning) (c : Pass) (t : Tables D) (d : List Event)
        → History t d
        → History
            (relayed platform server float opts c t)
            (d ++ (run_once float opts c t.outbox_events).0.delivered)

  pub History-Reachable :
      (t : Tables D) (d : List Event) → History t d → Reachable platform server float t
  History-Reachable _ _ began = migrated
  History-Reachable _ _ (ingested c t d tx h) =
      then_step t _ (History-Reachable t d h) (ingests c t tx)
  History-Reachable _ _ (passed opts c t d h) =
      then_step t _ (History-Reachable t d h) (relays opts c t)

  -- What is marked published was taken.
  abbrev pub AreDelivered : List Event → List EventRow → Type 0
  AreDelivered d rows = All (λ r. (is_pending r ≡ true) ⊎ (was_delivered r.event.id d ≡ true)) rows

  AreDelivered-Follows :
      (d d' : List Event) (rows rows' : List EventRow)
      → Follows d' rows rows'
      → AreDelivered d rows
      → AreDelivered (d ++ d') rows'
  AreDelivered-Follows d d' [] [] f h = tt
  AreDelivered-Follows d d' [] (r' ∷ rows') f h = absurd f
  AreDelivered-Follows d d' (r ∷ rows) [] f h = absurd f
  AreDelivered-Follows d d' (r ∷ rows) (r' ∷ rows') (k, f) (p, h) = (
    let e = k.event in
        let q = k.delivered in
        ground (arith, was_delivered-append r.event.id d d', was_delivered-prepend r.event.id d d'),
    AreDelivered-Follows d d' rows rows' f h,
  )

  -- What was taken stands in the outbox.
  abbrev pub AreKnown : List Event → List EventRow → Type 0
  AreKnown d rows = All (λ e. Memᴰ e (map (λ r. r.event) rows)) d

  AreKnown-more :
      (d : List Event) (rows : List EventRow) (r : EventRow)
      → AreKnown d rows
      → AreKnown d (rows ++ (r ∷ []))
  AreKnown-more d rows r = All-imp d (λ e m. rw map-append (Memᴰ.append_left (r.event ∷ []) m))

  rows_known : (rows : List EventRow) → All (λ r. Memᴰ r.event (map (λ r. r.event) rows)) rows
  rows_known [] = tt
  rows_known (r ∷ rows) = (Memᴰ.head refl, All-imp rows (λ x m. Memᴰ.tail m) (rows_known rows))

  -- The tables of a history, with what was taken in it.
  pub record IsTold (t : Tables D) (d : List Event) : Type 0 where
    pub delivered : AreDelivered d t.outbox_events
    pub known : AreKnown d t.outbox_events

  written-IsTold :
      (c : Conditions) (t : Tables D) (tx : Transaction D) (t' : Tables D) (d : List Event)
      → IsWritten platform server c t tx t'
      → IsTold t d
      → IsTold t' d
  written-IsTold c t tx t' d w h = record {
    delivered = rw w.queue (
        All-append _ t.outbox_events (queued platform server c.now w.event ∷ []) h.delivered
          (inl refl, tt));
    known =
        rw w.queue (AreKnown-more d t.outbox_events (queued platform server c.now w.event) h.known);
  }

  Atomic-IsTold :
      (c : Conditions) (t : Tables D) (tx : Transaction D) (d : List Event)
      (r : Tables D × Result Text (IngestOutcome D))
      → Atomic platform server c t tx r
      → IsTold t d
      → IsTold r.0 d
  Atomic-IsTold c t tx d (t', ok o) (inl (w, _)) h = written-IsTold c t tx t' d w h
  Atomic-IsTold c t tx d (t', ok o) (inr m) h = rw m.same h
  Atomic-IsTold c t tx d (t', err cause) (inl same) h = rw same h
  Atomic-IsTold c t tx d (t', err cause) (inr w) h = written-IsTold c t tx t' d w h

  relayed-IsTold :
      (opts : Tuning) (c : Pass) (t : Tables D) (d : List Event)
      → IsTold t d
      → IsTold
          (relayed platform server float opts c t)
          (d ++ (run_once float opts c t.outbox_events).0.delivered)
  unfolding relayed
  relayed-IsTold opts c t d h =
      let rows = t.outbox_events in
      let follows = run_once-Follows float opts c rows in
      let same = Follows-events _ rows _ follows in
      let new =
        run_once-All (λ e. Memᴰ e (map (λ r. r.event) rows)) float opts c rows (rows_known rows) in
      record {
        delivered = AreDelivered-Follows d _ rows _ follows h.delivered;
        known = rw same (All-append _ d _ h.known new);
      }

  pub History-IsTold : (t : Tables D) (d : List Event) → History t d → IsTold t d
  History-IsTold _ _ began = record { delivered = tt; known = tt }
  History-IsTold _ _ (ingested c t d tx h) =
      Atomic-IsTold c t tx d _ (ingest-Atomic platform server c t tx) (History-IsTold t d h)
  History-IsTold _ _ (passed opts c t d h) = relayed-IsTold opts c t d (History-IsTold t d h)
