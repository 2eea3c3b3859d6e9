-- ===== src/HttpApi/Mapping.antt =====
-- internal/httpapi/mapping.go: between the wire contract and the domain.
use emovis_micro_service.Base.{Text, List, [], ◌∷◌, Option, none, some}
use emovis_micro_service.Platform.{Platform}
use emovis_micro_service.Transaction.Model.{Submission, IngestOutcome}
use emovis_micro_service.Transaction.Validate.{RuleError}
use emovis_micro_service.HttpApi.ApiError.{FieldError}
use emovis_micro_service.HttpApi.Request.{IngestRequest, IngestResult}

-- `*p` where the pointer is set, and the zero value otherwise.
abbrev deref : Option Text → Text
deref none = []
deref (some s) = s

unfoldable pub to_submission : IngestRequest → Submission
to_submission req = record {
  source = req.source;
  source_reference = req.source_reference;
  kind = req.transaction_type;
  occurred_at = req.transaction_time_utc;
  plate = req.plate;
  transponder = deref req.transponder_number;
  base_amount = req.base_amount;
  currency = deref req.currency;
  location = req.location;
  metadata = req.metadata;
}

-- `Divergent` has no place on the wire.
unfoldable pub to_result : {D : Type 0} → Platform D → IngestOutcome D → IngestResult
to_result platform outcome =
    let tx = outcome.transaction in
    record {
      id = platform.uuid_text tx.id;
      association_status = tx.association_status;
      settlement_status = tx.settlement_status;
      duplicate = outcome.duplicate;
    }

unfoldable pub to_field_errors : List RuleError → List FieldError
to_field_errors [] = []
to_field_errors (p ∷ problems) =
    record { field = p.field; reason = p.reason } ∷ to_field_errors problems
