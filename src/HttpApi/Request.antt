-- ===== src/HttpApi/Request.antt =====
-- internal/httpapi/gen/api.gen.go: the request and the result of the contract. A pointer is `none`
-- where it is nil.
use emovis_micro_service.Base.{Text, Bool, Option}
use emovis_micro_service.Base.Clock.{Time}
use emovis_micro_service.Base.Json.{Fields}
use emovis_micro_service.Transaction.Model.{PlateRead, AssociationStatus, SettlementStatus}

pub record IngestRequest : Type 0 where
  pub source : Text
  pub source_reference : Text
  pub transaction_type : Text
  pub transaction_time_utc : Time
  pub base_amount : Text
  pub plate : Option PlateRead
  pub transponder_number : Option Text
  pub currency : Option Text
  pub location : Option Fields
  pub metadata : Option Fields

pub record IngestResult : Type 0 where
  pub id : Text
  pub association_status : AssociationStatus
  pub settlement_status : SettlementStatus
  pub duplicate : Bool
