-- ===== src/Store/Postgres/Contract.antt =====
-- The durable store against the contract of `transaction.Store`.
use mathlib.Core.Path.{subst}
use emovis_micro_service.Base.{
  Option-cases, Bool-cases, ℕ, ◌+◌, Text, text_eq_iff, if◌then◌else◌, List, [], ◌∷◌, ◌++◌, All,
  All-append, Option, none, some, Result, ok, err, ◌≡◌, inl, inr, refl, arith, ap, sym,
}
use emovis_micro_service.Platform.{Platform}
use emovis_micro_service.Transaction.Model.{
  key_eq_iff, Key, key_eq, key_of, Transaction, IngestOutcome,
}
use emovis_micro_service.Transaction.Fingerprint.{fingerprint}
use emovis_micro_service.Store.Interface.{
  StoreApi, IsStore, Ingested, Recorded, Unchanged, Replayed,
}
use emovis_micro_service.Store.Postgres.Database.{
  Row, Tables, Server, find_row, row_has_key, select_by_key, stored_row,
}
use emovis_micro_service.Store.Postgres.{Conditions, row_of, read_row, get_by_key, ingest}
use emovis_micro_service.Store.Postgres.RoundTrip.{ReadsBack, rounded, read_row-row_of}
use emovis_micro_service.Store.Postgres.Atomic.{IsWritten, IsMatched, Atomic, ingest-Atomic}
use emovis_micro_service.Store.Postgres.Insertion.{kept_row}

-- The tables, what the server does in each call to come, and the number of calls so far.
pub record Session (D : Type 0) : Type 0 where
  pub tables : Tables D
  pub conditions : ℕ → Conditions
  pub calls : ℕ

module _ {D : Type 0} (platform : Platform D) (server : Server D) where
  abbrev view : Option (Row D) → Option (Transaction D × Text)
  view none = none
  view (some row) = elim (read_row platform row) [ ok p ↦ some p | err cause ↦ none ]

  unfoldable pub stored : Session D → Key → Option (Transaction D × Text)
  stored s k = view (find_row k s.tables.transactions)

  abbrev next_session :
      Session D
      → Tables D × Result Text (IngestOutcome D)
      → Session D × Result Text (IngestOutcome D)
  next_session s (t, r) = (record s { tables = t; calls = s.calls + 1 }, r)

  abbrev pub postgres_api : StoreApi (Session D) D
  postgres_api = record {
    ingest = λ s tx. next_session s (ingest platform server (s.conditions s.calls) s.tables tx);
    as_stored = rounded platform server;
    stored = stored;
  }

  -- Every row can be read back.
  abbrev Readable : Row D → Type 0
  Readable row = (p : Transaction D × Text) × (read_row platform row ≡ ok p)

  abbrev pub IsReadable : Session D → Type 0
  IsReadable s = All Readable s.tables.transactions

  find_row-append :
      (k : Key) (rows : List (Row D)) (row : Row D)
      → find_row k rows ≡ none
      → find_row k (rows ++ (row ∷ [])) ≡ (if row_has_key k row then some row else none)
  unfolding find_row
  find_row-append k [] row h = refl
  find_row-append k (r ∷ rows) row h = ground (arith, find_row-append k rows row)

  find_row-append_old :
      (k : Key) (rows : List (Row D)) (row old : Row D)
      → find_row k rows ≡ some old
      → find_row k (rows ++ (row ∷ [])) ≡ some old
  unfolding find_row
  find_row-append_old k [] row old h = cc
  find_row-append_old k (r ∷ rows) row old h = ground (arith, find_row-append_old k rows row old)

  find_row-Readable :
      (k : Key) (rows : List (Row D)) (row : Row D)
      → All Readable rows
      → find_row k rows ≡ some row
      → Readable row
  unfolding find_row
  find_row-Readable k [] row a h = absurd (ground arith)
  find_row-Readable k (r ∷ rows) row (here, a) h = elim (Bool-cases (row_has_key k r)) [
    | inl same ↦ let e : r ≡ row = ground arith in subst Readable e here
    | inr other ↦ find_row-Readable k rows row a (rw other at h)
  ]

  kept_row-key :
      (tx : Transaction D) (column : D) (k : Key)
      → row_has_key k (kept_row platform server tx column) ≡ key_eq (key_of tx) k
  unfolding row_has_key stored_row row_of key_eq key_of
  kept_row-key tx column k = refl

  module _ (c : Conditions) (s s' : Session D) (tx : Transaction D)
      (storable : ReadsBack platform tx)
      (w : IsWritten platform server c s.tables tx s'.tables) where
    new_row-view :
        read_row platform (kept_row platform server tx w.column)
        ≡ ok (rounded platform server tx, fingerprint platform tx)
    new_row-view = read_row-row_of platform server tx (fingerprint platform tx) w.column storable

    written-after :
        (k : Key)
        → stored s' k ≡ (
            if key_eq (key_of tx) k
            then some (rounded platform server tx, fingerprint platform tx)
            else stored s k)
    unfolding stored
    written-after k = elim (Option-cases (find_row k s.tables.transactions)) [
      | inl fresh ↦ ground (
        arith,
        w.row,
        new_row-view,
        find_row-append k s.tables.transactions (kept_row platform server tx w.column) fresh,
        kept_row-key tx w.column k,
      )
      | inr (old, known) ↦ ground (
        arith,
        w.row,
        w.free,
        key_eq_iff (key_of tx) k,
        find_row-append_old k s.tables.transactions (kept_row platform server tx w.column) old
            known,
      )
    ]

    written-Recorded : Recorded platform postgres_api s tx s'
    unfolding stored
    written-Recorded = (ground (arith, w.free), written-after)

    written-IsReadable : IsReadable s → IsReadable s'
    written-IsReadable h = subst (All Readable) (sym w.row) (
        All-append Readable s.tables.transactions (kept_row platform server tx w.column ∷ []) h
          ((_, new_row-view), tt))

  get_by_key-stored :
      (s : Session D) (k : Key) (p : Transaction D × Text)
      → get_by_key platform s.tables none k ≡ ok p
      → stored s k ≡ some p
  unfolding get_by_key select_by_key stored
  get_by_key-stored s k p h = elim (Option-cases (find_row k s.tables.transactions)) [
    | inl free ↦ absurd (ground arith)
    | inr (row, taken) ↦ ground arith
  ]

  matched-Replayed :
      (s : Session D) (tx : Transaction D) (t' : Tables D) (o : IngestOutcome D)
      → IsMatched platform server s.tables tx t' o
      → Replayed platform postgres_api s tx o
  matched-Replayed s tx t' o m = (
    m.digest,
    get_by_key-stored s (key_of tx) (o.transaction, m.digest) m.found,
    m.duplicate,
    ground (arith, m.divergent, text_eq_iff m.digest (fingerprint platform tx)),
  )

  same_tables-Unchanged :
      (s s' : Session D) → s'.tables ≡ s.tables → Unchanged platform postgres_api s s'
  unfolding stored
  same_tables-Unchanged s s' e k = ap (λ t. view (find_row k t.transactions)) e

  Atomic-Ingested :
      (c : Conditions) (s : Session D) (tx : Transaction D)
      (r : Tables D × Result Text (IngestOutcome D))
      → ReadsBack platform tx
      → Atomic platform server c s.tables tx r
      → Ingested platform postgres_api s tx (next_session s r)
  Atomic-Ingested c s tx (t', ok o) storable (inl (w, out)) =
      inl (out, written-Recorded c s (record s { tables = t'; calls = s.calls + 1 }) tx storable w)
  Atomic-Ingested c s tx (t', ok o) storable (inr m) =
      inr (matched-Replayed s tx t' o m, same_tables-Unchanged s _ m.same)
  Atomic-Ingested c s tx (t', err cause) storable (inl same) = inl (same_tables-Unchanged s _ same)
  Atomic-Ingested c s tx (t', err cause) storable (inr w) =
      inr (written-Recorded c s (record s { tables = t'; calls = s.calls + 1 }) tx storable w)

  Atomic-IsReadable :
      (c : Conditions) (s : Session D) (tx : Transaction D)
      (r : Tables D × Result Text (IngestOutcome D))
      → ReadsBack platform tx
      → Atomic platform server c s.tables tx r
      → IsReadable s
      → IsReadable (next_session s r).0
  Atomic-IsReadable c s tx (t', ok o) storable (inl (w, out)) h =
      written-IsReadable c s (record s { tables = t'; calls = s.calls + 1 }) tx storable w h
  Atomic-IsReadable c s tx (t', ok o) storable (inr m) h =
      subst (λ t. All Readable t.transactions) (sym m.same) h
  Atomic-IsReadable c s tx (t', err cause) storable (inl same) h =
      subst (λ t. All Readable t.transactions) (sym same) h
  Atomic-IsReadable c s tx (t', err cause) storable (inr w) h =
      written-IsReadable c s (record s { tables = t'; calls = s.calls + 1 }) tx storable w h

  -- For transactions whose identity, currency and amount read back from a row, and whatever the server does in each call, the durable store records a
  -- transaction under a free key as the server rounds it and with its fingerprint, answers a taken
  -- key by the stored transaction with `divergent` exactly where the fingerprints differ, and where
  -- it fails has changed nothing or has recorded the transaction; every row can be read back.
  pub postgres_api-IsStore : IsStore platform postgres_api IsReadable (ReadsBack platform)
  postgres_api-IsStore = record {
    same_id = λ tx. refl;
    keeps = λ s tx v f.
        Atomic-IsReadable (s.conditions s.calls) s tx _ f
          (ingest-Atomic platform server (s.conditions s.calls) s.tables tx) v;
    ingested = λ s tx v f.
        Atomic-Ingested (s.conditions s.calls) s tx _ f
          (ingest-Atomic platform server (s.conditions s.calls) s.tables tx);
  }
