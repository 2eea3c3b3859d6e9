-- ===== src/System/Told.antt =====
-- What the publisher is given, next to what is recorded.
use mathlib.Core.List.{Memᴰ, append-nil, append_assoc}
use mathlib.Core.Path.{subst}
use emovis_micro_service.Base.{
  ◌*◌, ◌≤◌, true, false, ◌==◌, List, [], ◌∷◌, ◌++◌, map, ◌≡◌, refl, ap, sym, ◌∙◌, arith, inl, inr,
  All, length, Bool-cases,
}
use emovis_micro_service.Base.Members.{All-Memᴰ, Memᴰ-map, map-Memᴰ}
use emovis_micro_service.Platform.{Platform}
use emovis_micro_service.Transaction.Model.{Uuid}
use emovis_micro_service.Outbox.Event.{Event}
use emovis_micro_service.Outbox.Backoff.{FloatApi, Tuning}
use emovis_micro_service.Outbox.Relay.{Pass, is_pending, run_once, pending_count}
use emovis_micro_service.Outbox.Relay.Drain.{IsUnique}
use emovis_micro_service.Outbox.Relay.Healthy.{IsHealthy}
use emovis_micro_service.Outbox.Relay.Passes.{Ready, passes, taken, passes-drain}
use emovis_micro_service.Outbox.Relay.Rows.{was_delivered}
use emovis_micro_service.Store.Postgres.Database.{EventRow, Tables, Server, has_event}
use emovis_micro_service.Store.Postgres.Pairing.{row_ids}
use emovis_micro_service.System.{relayed}
use emovis_micro_service.System.Invariants.{aggregates, Reachable-IsSound}
use emovis_micro_service.System.History.{History, passed, History-Reachable, History-IsTold}

abbrev events_of : List EventRow → List Event
events_of = map λ r. r.event

delivered-Memᴰ :
    (id : Uuid) (d : List Event) → was_delivered id d ≡ true → (e : Event) × Memᴰ e d × (e.id ≡ id)
unfolding was_delivered
delivered-Memᴰ id [] h = absurd (ground arith)
delivered-Memᴰ id (e ∷ d) h = elim (Bool-cases (e.id == id)) [
  | inl same ↦ (e, Memᴰ.head refl, ground arith)
  | inr other ↦ let (f, m, q) = delivered-Memᴰ id d (ground arith) in (f, Memᴰ.tail m, q)
]

has_event-Memᴰ :
    (e : Event) (rows : List EventRow) → Memᴰ e (events_of rows) → has_event e.id rows ≡ true
unfolding has_event
has_event-Memᴰ e [] m = elim m [ ]
has_event-Memᴰ e (r ∷ rows) (Memᴰ.head q) = let p = ap (λ x. x.id) q in ground arith
has_event-Memᴰ e (r ∷ rows) (Memᴰ.tail m) = ground (arith, has_event-Memᴰ e rows m)

-- One identifier, one event.
same_event :
    (e f : Event) (rows : List EventRow)
    → IsUnique rows
    → Memᴰ e (events_of rows)
    → Memᴰ f (events_of rows)
    → e.id ≡ f.id
    → e ≡ f
unfolding IsUnique
same_event e f [] u m n h = elim m [ ]
same_event e f (r ∷ rows) (here, u) (Memᴰ.head p) (Memᴰ.head q) h = p ∙ sym q
same_event e f (r ∷ rows) (here, u) (Memᴰ.head p) (Memᴰ.tail m) h =
    let p' = ap (λ x. x.id) p in
    absurd (ground (arith, ap (λ i. has_event i rows) (sym h ∙ p'), has_event-Memᴰ f rows m))
same_event e f (r ∷ rows) (here, u) (Memᴰ.tail m) (Memᴰ.head q) h =
    let q' = ap (λ x. x.id) q in
    absurd (ground (arith, ap (λ i. has_event i rows) (h ∙ q'), has_event-Memᴰ e rows m))
same_event e f (r ∷ rows) (here, u) (Memᴰ.tail m) (Memᴰ.tail n) h = same_event e f rows u m n h

none_pending :
    (r : EventRow) (rows : List EventRow)
    → pending_count rows ≡ 0
    → Memᴰ r rows
    → is_pending r ≡ false
unfolding pending_count
none_pending r [] z m = elim m [ ]
none_pending r (x ∷ rows) z (Memᴰ.head e) = let p = ap is_pending e in ground arith
none_pending r (x ∷ rows) z (Memᴰ.tail m) = none_pending r rows (omega arith) m

module _ {D : Type 0} (platform : Platform D) (server : Server D) (float : FloatApi) where
  -- What the publisher was given tells of a recorded transaction.
  pub told-Recorded :
      (t : Tables D) (d : List Event) (e : Event)
      → History platform server float t d
      → Memᴰ e d
      → Memᴰ e.aggregate_id (row_ids t)
  told-Recorded t d e h m =
      let known = (History-IsTold platform server float t d h).known in
      let sound =
        Reachable-IsSound platform server float t (History-Reachable platform server float t d h) in
      subst (λ ids. Memᴰ e.aggregate_id ids)
        (sym (sound.pairs.paired ∙ aggregates platform server float t.outbox_events))
        (map-Memᴰ (λ e. e.aggregate_id) e (events_of t.outbox_events) (All-Memᴰ _ e d known m))

  settled-Told :
      (t : Tables D) (d : List Event) (id : Uuid)
      → History platform server float t d
      → pending_count t.outbox_events ≡ 0
      → Memᴰ id (row_ids t)
      → (e : Event) × Memᴰ e d × (e.aggregate_id ≡ id)
  settled-Told t d id h z m =
      let rows = t.outbox_events in
      let told = History-IsTold platform server float t d h in
      let sound =
        Reachable-IsSound platform server float t (History-Reachable platform server float t d h) in
      let (r, here, q) =
        Memᴰ-map (λ r. r.event.aggregate_id) id rows
          (subst (λ ids. Memᴰ id ids) sound.pairs.paired m) in
      let gone = none_pending r rows z here in
      let done = All-Memᴰ _ r rows told.delivered here in
      let (e, taken_one, same) = delivered-Memᴰ r.event.id d (ground arith) in
      let one =
        same_event e r.event rows sound.events (All-Memᴰ _ e d told.known taken_one)
          (map-Memᴰ (λ r. r.event) r rows here) same in
      (e, taken_one, ap (λ x. x.aggregate_id) one ∙ q)

  passes-History :
      (opts : Tuning) (cs : List Pass) (t : Tables D) (d : List Event)
      → History platform server float t d
      → History platform server float
          (record t { outbox_events = passes float opts cs t.outbox_events })
          (d ++ taken float opts cs t.outbox_events)
  unfolding passes taken relayed
  passes-History opts [] t d h =
      subst (λ d'. History platform server float t d') (sym (append-nil d)) h
  passes-History opts (c ∷ cs) t d h =
      subst
        (λ d'.
          History platform server float
            (record t { outbox_events = passes float opts (c ∷ cs) t.outbox_events }) d')
        (append_assoc d _ _)
        (passes-History opts cs (relayed platform server float opts c t)
          (d ++ (run_once float opts c t.outbox_events).0.delivered) (passed opts c t d h))

  -- Over a history of ingests and passes that fail in any way, enough passes in which nothing fails
  -- make the publisher take an event of every recorded transaction.
  pub drained-Told :
      (opts : Tuning) (cs : List Pass) (t : Tables D) (d : List Event) (id : Uuid)
      → History platform server float t d
      → All IsHealthy cs
      → All (Ready t.outbox_events) cs
      → pending_count t.outbox_events ≤ length cs * opts.batch_size
      → Memᴰ id (row_ids t)
      → (e : Event) × Memᴰ e (d ++ taken float opts cs t.outbox_events) × (e.aggregate_id ≡ id)
  drained-Told opts cs t d id h healthy ready enough m =
      let sound =
        Reachable-IsSound platform server float t (History-Reachable platform server float t d h) in
      let left = passes-drain float opts cs t.outbox_events sound.events healthy ready in
      settled-Told (record t { outbox_events = passes float opts cs t.outbox_events }) _ id
        (passes-History opts cs t d h) (omega arith) m
