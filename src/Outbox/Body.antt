-- ===== src/Outbox/Body.antt =====
-- internal/outbox/outbox.go: `TransactionReceived`, the published body of an event.
use emovis_micro_service.Base.{ℕ, Text, Option}
use emovis_micro_service.Base.Clock.{Time}
use emovis_micro_service.Base.Json.{Fields}

pub record TransactionReceived : Type 0 where
  pub event_id : ℕ
  pub event_type : Text
  pub transaction_id : Text
  pub source : Text
  pub source_reference : Text
  pub transaction_type : Text
  pub transaction_time_utc : Time
  pub received_at : Time
  pub plate_number : Text
  pub plate_jurisdiction : Text
  pub plate_number_key : Text
  pub transponder : Text
  pub transponder_key : Text
  pub base_amount : Text
  pub currency : Text
  pub location : Option Fields
  pub metadata : Option Fields
  pub association_status : Text
  pub settlement_status : Text
