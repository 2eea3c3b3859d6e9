-- ===== src/Transaction/Fields.antt =====
-- internal/transaction/fingerprint.go: `fingerprintFields`, what a fingerprint covers.
use emovis_micro_service.Base.{Text, Option}
use emovis_micro_service.Base.Clock.{Time}
use emovis_micro_service.Base.Json.{Fields}

pub record FingerprintFields : Type 0 where
  pub source : Text
  pub source_reference : Text
  pub kind : Text
  pub occurred_at : Time
  pub plate_number : Text
  pub plate_jurisdiction : Text
  pub transponder : Text
  pub amount : Text
  pub currency : Text
  pub location : Option Fields
  pub metadata : Option Fields
