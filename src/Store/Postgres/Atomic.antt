-- ===== src/Store/Postgres/Atomic.antt =====
-- What a call of the durable store does to the two tables.
use mathlib.Core.Path.{subst}
use emovis_micro_service.Base.{
  ℕ, Text, true, false, not, [], ◌∷◌, ◌++◌, Option, none, some, Result, ok, err, ◌≡◌, ◌⊎◌, inl, inr,
  refl, arith, ◌∙◌, ap, text_eq, Result-cases,
}
use emovis_micro_service.Platform.{Platform}
use emovis_micro_service.Transaction.Model.{Uuid, Key, key_of, Transaction, IngestOutcome}
use emovis_micro_service.Transaction.Fingerprint.{fingerprint}
use emovis_micro_service.Outbox.Event.{Event, new_transaction_received}
use emovis_micro_service.Store.Postgres.Database.{
  has_event, EventRow, Tables, Server, insert_transaction, insert_outbox_event, find_row,
}
use emovis_micro_service.Store.Postgres.{
  begun, Commit, commits, fails, answer_lost, Conditions, run, row_of, get_by_key,
  write_outbox_event, write_event, created, matched, inserted, ingest_in_tx, committed, ingest,
}
use emovis_micro_service.Store.Postgres.Insertion.{kept_row, insert-same, insert_transaction-row}

module _ {D : Type 0} (platform : Platform D) (server : Server D) where
  -- A fresh row of the outbox.
  abbrev pub queued : ℕ → Event → EventRow
  queued now e = record {
    event = e;
    published_at = none;
    attempts = 0;
    last_error = none;
    next_attempt_at = now;
  }

  -- One row and one event more, the event being that of the transaction; the key was free.
  pub record IsWritten (c : Conditions) (t : Tables D) (tx : Transaction D) (t' : Tables D)
      : Type 0 where
    pub column : D
    pub event_id : Uuid
    pub event : Event
    pub built : new_transaction_received platform tx event_id ≡ ok event
    pub fresh : has_event event.id t.outbox_events ≡ false
    pub free : find_row (key_of tx) t.transactions ≡ none
    pub row : t'.transactions ≡ t.transactions ++ (kept_row platform server tx column ∷ [])
    pub queue : t'.outbox_events ≡ t.outbox_events ++ (queued c.now event ∷ [])

  -- The key was taken: the tables are as they were, and the stored record is returned.
  pub record IsMatched (t : Tables D) (tx : Transaction D) (t' : Tables D) (o : IngestOutcome D)
      : Type 0 where
    pub digest : Text
    pub found : get_by_key platform t none (key_of tx) ≡ ok (o.transaction, digest)
    pub same : t' ≡ t
    pub duplicate : o.duplicate ≡ true
    pub divergent : o.divergent ≡ not (text_eq digest (fingerprint platform tx))

  write_event-queue :
      (c : Conditions) (t : Tables D) (built : Result Text Event) (t' : Tables D)
      → write_event platform c t built ≡ ok t'
      → (event : Event) × (built ≡ ok event)
        × (has_event event.id t.outbox_events ≡ false)
        × (t' ≡ record t { outbox_events = t.outbox_events ++ (queued c.now event ∷ []) })
  unfolding write_event insert_outbox_event
  write_event-queue c t (err cause) t' h = ground arith
  write_event-queue c t (ok event) t' h = (event, refl, ground arith, ground arith)

  write_outbox_event-queue :
      (c : Conditions) (t : Tables D) (tx : Transaction D) (t' : Tables D)
      → write_outbox_event platform c t tx ≡ ok t'
      → (event_id : Uuid) × (event : Event) × (new_transaction_received platform tx event_id
          ≡ ok event)
        × (has_event event.id t.outbox_events ≡ false)
        × (t' ≡ record t { outbox_events = t.outbox_events ++ (queued c.now event ∷ []) })
  unfolding write_outbox_event
  write_outbox_event-queue c t tx t' h = elim (Result-cases c.new_event_id) [
    | inr (e, bad) ↦ absurd (ground arith)
    | inl (id, minted) ↦
        let (event, built, fresh, queue) =
          write_event-queue c t (new_transaction_received platform tx id) t'
            (rw (minted, write_outbox_event) at h) in
        (id, event, built, fresh, queue)
  ]

  -- What the statements of a call come to, if they all succeed.
  abbrev pub Done : Conditions → Tables D → Transaction D → Tables D → IngestOutcome D → Type 0
  Done c t tx t' o =
      (IsWritten c t tx t'
        × (o ≡ record { transaction = tx; duplicate = false; divergent = false }))
      ⊎ IsMatched t tx t' o

  run-ok :
      {A : Type 0} (failing : Option Text) (r : Result Text A) (a : A)
      → run failing r ≡ ok a
      → r ≡ ok a
  run-ok none r a h = h
  run-ok (some cause) r a h = absurd (ground arith)

  created-ok :
      (tx : Transaction D) (r : Result Text (Tables D)) (t' : Tables D) (o : IngestOutcome D)
      → created platform tx r ≡ ok (t', o)
      → (r ≡ ok t') × (o ≡ record { transaction = tx; duplicate = false; divergent = false })
  unfolding created
  created-ok tx (ok t) t' o h = ground arith
  created-ok tx (err cause) t' o h = ground arith

  matched-ok :
      (digest : Text) (t : Tables D) (r : Result Text (Transaction D × Text)) (t' : Tables D)
      (o : IngestOutcome D)
      → matched platform digest t r ≡ ok (t', o)
      → (kept : Text) × (r ≡ ok (o.transaction, kept))
        × (t' ≡ t)
        × (o.duplicate ≡ true)
        × (o.divergent ≡ not (text_eq kept digest))
  unfolding matched
  matched-ok digest t (ok (existing, kept)) t' o h =
      (kept, ground arith, ground arith, ground arith, ground arith)
  matched-ok digest t (err cause) t' o h = absurd (ground arith)

  get_by_key-ok :
      (t : Tables D) (failing : Option Text) (k : Key) (p : Transaction D × Text)
      → get_by_key platform t failing k ≡ ok p
      → get_by_key platform t none k ≡ ok p
  unfolding get_by_key
  get_by_key-ok t none k p h = h
  get_by_key-ok t (some cause) k p h = absurd (ground arith)

  inserted-Done :
      (c : Conditions) (t : Tables D) (tx : Transaction D)
      (r : Result Text (Option Uuid × Tables D)) (t' : Tables D) (o : IngestOutcome D)
      → run c.insert (insert_transaction server t (row_of platform tx (fingerprint platform tx)))
        ≡ r
      → inserted platform c tx r ≡ ok (t', o)
      → Done c t tx t' o
  unfolding inserted
  inserted-Done c t tx (err cause) t' o e h = absurd (ground arith)
  inserted-Done c t tx (ok (some id, t₁)) t' o e h =
      let (column, free, row) =
        insert_transaction-row platform server t tx id t₁ (run-ok c.insert _ _ e) in
      let (written, out) = created-ok tx (write_outbox_event platform c t₁ tx) t' o h in
      let (event_id, event, built, fresh, queue) = write_outbox_event-queue c t₁ tx t' written in
      inl (
        record {
          column = column;
          event_id = event_id;
          event = event;
          built = built;
          fresh = subst (λ u. has_event event.id u.outbox_events ≡ false) row fresh;
          free = free;
          row = ap (λ t. t.transactions) queue ∙ ap (λ t. t.transactions) row;
          queue =
              ap (λ t. t.outbox_events) queue
              ∙ ap (λ t. t.outbox_events ++ (queued c.now event ∷ [])) row;
        },
        out,
      )
  inserted-Done c t tx (ok (none, t₁)) t' o e h =
      let (kept, read, same, dup, div) =
        matched-ok (fingerprint platform tx) t₁ (get_by_key platform t₁ c.select (key_of tx)) t' o
          h in
      let here =
        insert-same platform server t (row_of platform tx (fingerprint platform tx)) t₁
          (run-ok c.insert _ _ e) in
      inr (record {
        digest = kept;
        found =
            subst (λ u. get_by_key platform u none (key_of tx) ≡ ok (o.transaction, kept)) here
              (get_by_key-ok t₁ c.select (key_of tx) (o.transaction, kept) read);
        same = same ∙ here;
        duplicate = dup;
        divergent = div;
      })

  -- What a call does to the tables, by its result.
  abbrev pub Atomic :
      Conditions → Tables D → Transaction D → Tables D × Result Text (IngestOutcome D) → Type 0
  Atomic c t tx (t', ok o) = Done c t tx t' o
  Atomic c t tx (t', err cause) = (t' ≡ t) ⊎ IsWritten c t tx t'

  committed-Atomic :
      (c : Conditions) (t : Tables D) (tx : Transaction D) (how : Commit)
      (r : Result Text (Tables D × IngestOutcome D))
      → ((t' : Tables D) (o : IngestOutcome D) → r ≡ ok (t', o) → Done c t tx t' o)
      → Atomic c t tx (committed platform t how r)
  unfolding committed
  committed-Atomic c t tx how (err cause) h = inl refl
  committed-Atomic c t tx commits (ok (t', o)) h = h t' o refl
  committed-Atomic c t tx (fails cause) (ok (t', o)) h = inl refl
  committed-Atomic c t tx (answer_lost cause) (ok (t', o)) h = lost (h t' o refl)
    where
      lost : Done c t tx t' o → (t' ≡ t) ⊎ IsWritten c t tx t'
      lost (inl (w, _)) = inr w
      lost (inr m) = inl m.same

  begun-Atomic :
      (c : Conditions) (t : Tables D) (tx : Transaction D) (begin : Option Text)
      (rest : Tables D × Result Text (IngestOutcome D))
      → Atomic c t tx rest
      → Atomic c t tx (begun platform t begin rest)
  unfolding begun
  begun-Atomic c t tx (some cause) rest h = inl refl
  begun-Atomic c t tx none rest h = h

  -- Whatever fails in a call: one that succeeds has written the row of the transaction and its event
  -- together, under a key that was free, or has found the key taken, left the tables alone and
  -- returned the stored record; one that fails has left the tables alone, or has written both.
  pub ingest-Atomic :
      (c : Conditions) (t : Tables D) (tx : Transaction D)
      → Atomic c t tx (ingest platform server c t tx)
  unfolding ingest ingest_in_tx
  ingest-Atomic c t tx =
      begun-Atomic c t tx c.begin
        (committed platform t c.commit (ingest_in_tx platform server c t tx))
        (committed-Atomic c t tx c.commit (ingest_in_tx platform server c t tx)
          (λ t' o h. inserted-Done c t tx _ t' o refl h))
