-- ===== src/Outbox/Event.antt =====
-- internal/outbox/outbox.go: events, and the event of a newly accepted transaction.
use emovis_micro_service.Base.{Text, lit, ◌++◌, Result, ok, err}
use emovis_micro_service.Base.Clock.{Time, to_utc}
use emovis_micro_service.Platform.{Platform}
use emovis_micro_service.Outbox.Body.{TransactionReceived}
use emovis_micro_service.Transaction.Model.{
  Uuid, AssociationStatus, received, resolving, associated, exception, SettlementStatus, unpriced,
  priced, payable, paid, Transaction,
}
use emovis_micro_service.Transaction.Fingerprint.{plate_text, transponder_text}

pub record Event : Type 0 where
  pub id : Uuid
  pub kind : Text
  pub aggregate_id : Uuid
  pub payload : Text
  pub created_at : Time

unfoldable pub event_type_transaction_received : Text
event_type_transaction_received = lit "transaction.received"

unfoldable pub association_text : AssociationStatus → Text
association_text received = lit "received"
association_text resolving = lit "resolving"
association_text associated = lit "associated"
association_text exception = lit "exception"

unfoldable pub settlement_text : SettlementStatus → Text
settlement_text unpriced = lit "unpriced"
settlement_text priced = lit "priced"
settlement_text payable = lit "payable"
settlement_text paid = lit "paid"

module _ {D : Type 0} (platform : Platform D) where
  unfoldable pub body_of : Transaction D → Uuid → TransactionReceived
  body_of tx event_id = record {
    event_id = event_id;
    event_type = event_type_transaction_received;
    transaction_id = platform.uuid_text tx.id;
    source = tx.source;
    source_reference = tx.source_reference;
    transaction_type = tx.kind;
    transaction_time_utc = to_utc tx.occurred_at;
    received_at = to_utc tx.received_at;
    plate_number = plate_text (λ p. p.number) tx.plate;
    plate_jurisdiction = plate_text (λ p. p.jurisdiction) tx.plate;
    plate_number_key = plate_text (λ p. p.number_key) tx.plate;
    transponder = transponder_text (λ t. t.number) tx.transponder;
    transponder_key = transponder_text (λ t. t.number_key) tx.transponder;
    base_amount =
        platform.decimal.string_fixed tx.base_amount.value tx.base_amount.currency.exponent;
    currency = tx.base_amount.currency.code;
    location = tx.location;
    metadata = tx.metadata;
    association_status = association_text tx.association_status;
    settlement_status = settlement_text tx.settlement_status;
  }

  unfoldable pub encoded_event : Transaction D → Uuid → Result Text Text → Result Text Event
  encoded_event tx event_id (err cause) = err (lit "marshal transaction.received event: " ++ cause)
  encoded_event tx event_id (ok payload) = ok (record {
    id = event_id;
    kind = event_type_transaction_received;
    aggregate_id = tx.id;
    payload = payload;
    created_at = to_utc tx.received_at;
  })

  unfoldable pub new_transaction_received : Transaction D → Uuid → Result Text Event
  unfolding encoded_event
  new_transaction_received tx event_id =
      encoded_event tx event_id (platform.marshal_body (body_of tx event_id))
