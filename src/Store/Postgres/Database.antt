-- ===== src/Store/Postgres/Database.antt =====
-- The tables of db/migrations, and the statements that the program sends. The server is PostgreSQL:
-- a statement does what its SQL says, or fails and leaves the tables alone. A failing statement and
-- the rounding of stored values are not the program's, and are parameters.
use emovis_micro_service.Base.{
  ℕ, Text, lit, Bool, true, false, ◌&&◌, ◌||◌, not, ◌==◌, if◌then◌else◌, List, [], ◌∷◌, ◌++◌,
  Option, none, some, Result, ok, err, text_eq,
}
use emovis_micro_service.Base.Clock.{Time}
use emovis_micro_service.Base.Json.{Fields}
use emovis_micro_service.Transaction.Model.{Uuid, AssociationStatus, SettlementStatus, Key}
use emovis_micro_service.Outbox.Event.{Event}

-- 00001: a row of `transactions`. A nullable column is an option.
pub record Row (D : Type 0) : Type 0 where
  pub id : Uuid
  pub source : Text
  pub source_reference : Text
  pub transaction_type : Text
  pub occurred_at : Time
  pub received_at : Time
  pub plate_number : Option Text
  pub plate_jurisdiction : Option Text
  pub plate_number_key : Option Text
  pub plate_jurisdiction_key : Option Text
  pub transponder_number : Option Text
  pub transponder_number_key : Option Text
  pub base_amount : D
  pub base_amount_text : Text
  pub currency : Text
  pub location : Option Fields
  pub metadata : Option Fields
  pub association_status : AssociationStatus
  pub settlement_status : SettlementStatus
  pub fingerprint : Text

-- 00002: a row of `outbox_events`. Its serial key is its place in the list.
pub record EventRow : Type 0 where
  pub event : Event
  pub published_at : Option ℕ
  pub attempts : ℕ
  pub last_error : Option Text
  pub next_attempt_at : ℕ

pub record Tables (D : Type 0) : Type 0 where
  pub transactions : List (Row D)
  pub outbox_events : List EventRow

-- How the server rounds what it stores: a `TIMESTAMPTZ` to microseconds, a `JSONB` to a normal form,
-- and a `NUMERIC(19,4)`, which refuses what does not fit.
pub record Server (D : Type 0) : Type 0 where
  pub store_time : Time → Time
  pub store_json : Option Fields → Option Fields
  pub store_numeric : D → Option D
  pub numeric_is_negative : D → Bool

abbrev pub is_set : Option Text → Bool
is_set none = false
is_set (some s) = true

unfoldable pub has_event : Uuid → List EventRow → Bool
has_event id [] = false
has_event id (e ∷ es) = e.event.id == id || has_event id es

module _ {D : Type 0} where
  unfoldable pub row_has_key : Key → Row D → Bool
  row_has_key k row = text_eq row.source k.source && text_eq row.source_reference k.source_reference

  unfoldable pub row_key : Row D → Key
  row_key row = record { source = row.source; source_reference = row.source_reference }

  unfoldable pub find_row : Key → List (Row D) → Option (Row D)
  find_row k [] = none
  find_row k (row ∷ rows) = if row_has_key k row then some row else find_row k rows

  unfoldable pub has_id : Uuid → List (Row D) → Bool
  has_id id [] = false
  has_id id (row ∷ rows) = row.id == id || has_id id rows

  -- The CHECK constraints of the table.
  unfoldable pub meets_checks : Server D → Row D → Bool
  meets_checks server row =
      (is_set row.plate_number_key || is_set row.transponder_number_key)
      && not (server.numeric_is_negative row.base_amount)

  -- What a row holds behind the conversion of its columns.
  unfoldable pub stored_row : Server D → Row D → D → Row D
  stored_row server row amount = record row {
    occurred_at = server.store_time row.occurred_at;
    received_at = server.store_time row.received_at;
    base_amount = amount;
    location = server.store_json row.location;
    metadata = server.store_json row.metadata;
  }

  -- `INSERT … ON CONFLICT ON CONSTRAINT transactions_idempotency_key DO NOTHING RETURNING id`: the
  -- identifier of a row that was inserted, or no row for a key that is taken. The constraints of the
  -- table come first, and the primary key last.
  unfoldable pub checked_insert : Server D → Tables D → Row D → Result Text (Option Uuid × Tables D)
  checked_insert server t row =
      if not (meets_checks server row)
      then err (lit "violates check constraint")
      else elim (find_row (row_key row) t.transactions) [
        | some taken ↦ ok (none, t)
        | none ↦
            if has_id row.id t.transactions
            then err (lit "duplicate key value violates unique constraint transactions_pkey")
            else ok (some row.id, record t { transactions = t.transactions ++ (row ∷ []) })
      ]

  unfoldable pub insert_transaction :
      Server D → Tables D → Row D → Result Text (Option Uuid × Tables D)
  unfolding checked_insert
  insert_transaction server t row = elim (server.store_numeric row.base_amount) [
    | none ↦ err (lit "numeric field overflow")
    | some amount ↦ checked_insert server t (stored_row server row amount)
  ]

  -- `SELECT … WHERE source = $1 AND source_reference = $2`
  unfoldable pub select_by_key : Tables D → Key → Option (Row D)
  select_by_key t key = find_row key t.transactions

  -- `INSERT INTO outbox_events …`, whose other columns take their defaults; `now` is the server's.
  unfoldable pub insert_outbox_event : ℕ → Tables D → Event → Result Text (Tables D)
  insert_outbox_event now t e =
      if has_event e.id t.outbox_events
      then err (lit "duplicate key value violates unique constraint outbox_events_event_id_key")
      else ok (record t {
        outbox_events =
            t.outbox_events
            ++ (record {
              event = e;
              published_at = none;
              attempts = 0;
              last_error = none;
              next_attempt_at = now;
            }
                ∷ []);
      })
