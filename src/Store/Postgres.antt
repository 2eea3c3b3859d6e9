-- ===== src/Store/Postgres.antt =====
-- internal/store/postgres/postgres.go: the durable store. A call runs in one database transaction, so
-- that it meets the tables as one step; what the server and the identifier source do in the call is
-- an argument.
pub mod Database
pub mod RoundTrip
pub mod Insertion
pub mod Atomic
pub mod Pairing
pub mod Contract
pub mod Found
use emovis_micro_service.Base.{
  ℕ, is_empty, Text, lit, true, false, not, text_eq, if◌then◌else◌, List, [], ◌∷◌, ◌++◌, Option,
  none, some, Result, ok, err,
}
use emovis_micro_service.Base.Clock.{to_utc}
use emovis_micro_service.Platform.{Platform}
use emovis_micro_service.Money.Currency
use emovis_micro_service.Money.Currency.{Currency}
use emovis_micro_service.Money.Amount.{Amount, ParseError, parse, parse_error_text}
use emovis_micro_service.Transaction.Identity.{Plate, Transponder}
use emovis_micro_service.Transaction.Model.{Uuid, Key, key_of, Transaction, IngestOutcome}
use emovis_micro_service.Transaction.Fingerprint.{plate_text, transponder_text, fingerprint}
use emovis_micro_service.Outbox.Event.{Event, new_transaction_received}
use emovis_micro_service.Store.Postgres.Database.{
  Row, Tables, Server, insert_transaction, select_by_key, insert_outbox_event,
}

-- `nullable` and `deref`
unfoldable pub nullable : Text → Option Text
nullable s = if is_empty s then none else some s

unfoldable pub deref : Option Text → Text
deref none = []
deref (some s) = s

unfoldable pub plate_from : Option Text → Option Text → Option Text → Option Text → Option Plate
unfolding deref
plate_from none jurisdiction number_key jurisdiction_key = none
plate_from (some number) jurisdiction number_key jurisdiction_key = some (record {
  number = number;
  jurisdiction = deref jurisdiction;
  number_key = deref number_key;
  jurisdiction_key = deref jurisdiction_key;
})

unfoldable pub transponder_from : Option Text → Option Text → Option Transponder
unfolding deref
transponder_from none number_key = none
transponder_from (some number) number_key =
    some (record { number = number; number_key = deref number_key })

-- How the commit of a call ends: it is done, it fails and is undone, or it is done and the answer
-- is lost on the way.
pub data Commit : Type 0 where
  commits : Commit
  fails : Text → Commit
  answer_lost : Text → Commit

-- What the server and `uuid.NewV7` do in one call: an error where a statement fails.
pub record Conditions : Type 0 where
  pub begin : Option Text
  pub insert : Option Text
  pub new_event_id : Result Text Uuid
  pub queue : Option Text
  pub select : Option Text
  pub commit : Commit
  pub now : ℕ

-- A failing statement in front of what the statement does.
abbrev pub run : {A : Type 0} → Option Text → Result Text A → Result Text A
run none r = r
run (some cause) r = err cause

-- `fmt.Errorf("…: %w", err)`
abbrev pub wrap : {A : Type 0} → Text → Result Text A → Result Text A
wrap message (ok a) = ok a
wrap message (err cause) = err (message ++ cause)

module _ {D : Type 0} (platform : Platform D) where
  -- The arguments of the insertion.
  unfoldable pub row_of : Transaction D → Text → Row D
  unfolding nullable
  row_of tx digest = record {
    id = tx.id;
    source = tx.source;
    source_reference = tx.source_reference;
    transaction_type = tx.kind;
    occurred_at = tx.occurred_at;
    received_at = tx.received_at;
    plate_number = nullable (plate_text (λ p. p.number) tx.plate);
    plate_jurisdiction = nullable (plate_text (λ p. p.jurisdiction) tx.plate);
    plate_number_key = nullable (plate_text (λ p. p.number_key) tx.plate);
    plate_jurisdiction_key = nullable (plate_text (λ p. p.jurisdiction_key) tx.plate);
    transponder_number = nullable (transponder_text (λ t. t.number) tx.transponder);
    transponder_number_key = nullable (transponder_text (λ t. t.number_key) tx.transponder);
    base_amount = tx.base_amount.value;
    base_amount_text = tx.base_amount.as_received;
    currency = tx.base_amount.currency.code;
    location = tx.location;
    metadata = tx.metadata;
    association_status = tx.association_status;
    settlement_status = tx.settlement_status;
    fingerprint = digest;
  }

  -- The scanned columns with an amount.
  unfoldable pub transaction_from : Row D → Amount D → Transaction D
  unfolding plate_from transponder_from
  transaction_from row amount = record {
    id = row.id;
    source = row.source;
    source_reference = row.source_reference;
    kind = row.transaction_type;
    occurred_at = to_utc row.occurred_at;
    received_at = to_utc row.received_at;
    plate =
        plate_from row.plate_number row.plate_jurisdiction row.plate_number_key
          row.plate_jurisdiction_key;
    transponder = transponder_from row.transponder_number row.transponder_number_key;
    base_amount = amount;
    location = row.location;
    metadata = row.metadata;
    association_status = row.association_status;
    settlement_status = row.settlement_status;
  }

  read_amount : Row D → Result ParseError (Amount D) → Result Text (Transaction D × Text)
  read_amount row (ok amount) = ok (transaction_from row amount, row.fingerprint)
  read_amount row (err e) = err (
      lit "parse stored amount "
      ++ (platform.formats.quote row.base_amount_text ++ (lit ": " ++ parse_error_text e)))

  read_currency : Row D → Option Currency → Result Text (Transaction D × Text)
  unfolding read_amount
  read_currency row none =
      err (
        lit "stored currency " ++ (platform.formats.quote row.currency ++ lit " is not recognised"))
  read_currency row (some c) = read_amount row (parse platform.decimal row.base_amount_text c)

  -- The row that was found, with the amount rebuilt from its text.
  unfoldable pub read_row : Row D → Result Text (Transaction D × Text)
  unfolding read_currency
  read_row row = read_currency row (Currency.lookup platform.tables row.currency)

  -- `getByKeyTx`
  unfoldable pub get_by_key : Tables D → Option Text → Key → Result Text (Transaction D × Text)
  unfolding read_row
  get_by_key t failing key = elim failing [
    | some cause ↦ err (lit "scan transaction: " ++ cause)
    | none ↦ elim (select_by_key t key) [
      | none ↦ err (lit "transaction not found")
      | some row ↦ read_row row
    ]
  ]

  write_event : Conditions → Tables D → Result Text Event → Result Text (Tables D)
  write_event c t (err cause) = err (lit "build outbox event: " ++ cause)
  write_event c t (ok event) =
      wrap (lit "queue outbox event: ") (run c.queue (insert_outbox_event c.now t event))

  -- `writeOutboxEvent`
  unfoldable pub write_outbox_event : Conditions → Tables D → Transaction D → Result Text (Tables D)
  unfolding write_event
  write_outbox_event c t tx = elim c.new_event_id [
    | err cause ↦ err (lit "generate event id: " ++ cause)
    | ok event_id ↦ write_event c t (new_transaction_received platform tx event_id)
  ]

  created : Transaction D → Result Text (Tables D) → Result Text (Tables D × IngestOutcome D)
  created tx (err cause) = err cause
  created tx (ok t) = ok (t, record { transaction = tx; duplicate = false; divergent = false })

  matched :
      Text
      → Tables D
      → Result Text (Transaction D × Text)
      → Result Text (Tables D × IngestOutcome D)
  matched digest t (err cause) = err (lit "read existing transaction: " ++ cause)
  matched digest t (ok (existing, kept)) = ok (
    t,
    record { transaction = existing; duplicate = true; divergent = not (text_eq kept digest) },
  )

  -- The `switch` on what the insertion returned.
  inserted :
      Conditions
      → Transaction D
      → Result Text (Option Uuid × Tables D)
      → Result Text (Tables D × IngestOutcome D)
  unfolding created matched
  inserted c tx (err cause) = err (lit "insert transaction: " ++ cause)
  inserted c tx (ok (some id, t)) = created tx (write_outbox_event c t tx)
  inserted c tx (ok (none, t)) =
      matched (fingerprint platform tx) t (get_by_key t c.select (key_of tx))

  unfoldable pub ingest_in_tx :
      Server D → Conditions → Tables D → Transaction D → Result Text (Tables D × IngestOutcome D)
  unfolding inserted
  ingest_in_tx server c t tx =
      inserted c tx
        (run c.insert (insert_transaction server t (row_of tx (fingerprint platform tx))))

  committed :
      Tables D
      → Commit
      → Result Text (Tables D × IngestOutcome D)
      → Tables D × Result Text (IngestOutcome D)
  committed t how (err cause) = (t, err cause)
  committed t commits (ok (t', o)) = (t', ok o)
  committed t (fails cause) (ok (t', o)) = (t, err (lit "commit transaction: " ++ cause))
  committed t (answer_lost cause) (ok (t', o)) = (t', err (lit "commit transaction: " ++ cause))

  begun :
      Tables D
      → Option Text
      → Tables D × Result Text (IngestOutcome D)
      → Tables D × Result Text (IngestOutcome D)
  begun t (some cause) rest = (t, err (lit "begin transaction: " ++ cause))
  begun t none rest = rest

  -- `Ingest`: without a commit the tables are as they were.
  unfoldable pub ingest :
      Server D → Conditions → Tables D → Transaction D → Tables D × Result Text (IngestOutcome D)
  unfolding begun committed
  ingest server c t tx = begun t c.begin (committed t c.commit (ingest_in_tx server c t tx))

  -- `Get`, over the pool
  unfoldable pub get_transaction : Tables D → Option Text → Key → Result Text (Transaction D)
  get_transaction t failing key = elim (get_by_key t failing key) [
    | ok (tx, digest) ↦ ok tx
    | err cause ↦ err cause
  ]
