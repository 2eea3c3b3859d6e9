-- ===== src/HttpApi/Ingest.antt =====
-- internal/httpapi/ingest.go: the handler of POST /ingest/v1/transactions. The body comes as what the
-- JSON decoder made of it, and the store through its contract. A reply has the answer that the handler
-- writes and the calls of the collectors that it makes before it: one of them can panic, which keeps the
-- answer from being written. `replied` of `Server` makes the calls and writes the answer or panics.
pub mod Outcomes
pub mod Retry
pub mod History
use emovis_micro_service.Base.{
  ℕ, Text, lit, ltb, true, false, if◌then◌else◌, List, [], ◌∷◌, ◌++◌, length, Option, none, some,
  Result, ok, err,
}
use emovis_micro_service.Platform.{Platform}
use emovis_micro_service.Money.Amount
use emovis_micro_service.Transaction.Model.{Transaction, IngestOutcome}
use emovis_micro_service.Transaction.Fingerprint.{fingerprint}
use emovis_micro_service.Transaction.Validate.{
  Rules, System, RuleError, Verdict, accepted, rejected, faulted, accept,
}
use emovis_micro_service.Store.Interface.{StoreApi}
use emovis_micro_service.HttpApi.ApiError.{FieldError, format_field_errors}
use emovis_micro_service.HttpApi.Request.{IngestRequest}
use emovis_micro_service.HttpApi.Reply
use emovis_micro_service.HttpApi.Reply.{
  Response, result, Level, info, warn, error, LogRecord, Metric, ingest_result, validation_failure,
  divergent_replay, Label, created, duplicate, failed, write_error,
}
use emovis_micro_service.HttpApi.Reply.{Reply as HandlerReply}
use emovis_micro_service.HttpApi.Mapping.{to_submission, to_result, to_field_errors}

abbrev log : Level → Text → List (Text × Text) → LogRecord
log level message attrs = record { level = level; message = message; attrs = attrs }

-- One count for each rejected field.
unfoldable pub count_fields : Text → List FieldError → List Metric
count_fields source [] = []
count_fields source (f ∷ fields) =
    validation_failure source (lit "semantic") f.field ∷ count_fields source fields

module _ {D : Type 0} (platform : Platform D) (request_id : Text) where
  unfoldable pub unreadable : Text → HandlerReply
  unreadable cause = record {
    response =
        write_error 400 (lit "request body could not be read")
          (record { field = lit "body"; reason = lit "is not valid JSON" } ∷ []);
    metrics = ingest_result (lit "unknown") Label.rejected ∷ [];
    logs =
        log warn (lit "body decoded by the validator but not by the handler")
          ((lit "request_id", request_id) ∷ (lit "error", cause) ∷ [])
        ∷ [];
  }

  unfoldable pub not_built : IngestRequest → Text → HandlerReply
  not_built body cause = record {
    response = write_error 500 (lit "transaction could not be processed") [];
    metrics = ingest_result body.source failed ∷ [];
    logs =
        log error (lit "could not build transaction")
          ((lit "request_id", request_id) ∷ (lit "source", body.source) ∷ (lit "error", cause) ∷ [])
        ∷ [];
  }

  unfoldable pub refused : IngestRequest → List RuleError → HandlerReply
  refused body problems =
      let fields = to_field_errors problems in
      record {
        response = write_error 400 (lit "transaction failed validation") fields;
        metrics =
            count_fields body.source fields ++ (ingest_result body.source Label.rejected ∷ []);
        logs =
            log info (lit "transaction rejected by validation rules") (
              (lit "request_id", request_id)
              ∷ (lit "source", body.source)
              ∷ (lit "source_reference", body.source_reference)
              ∷ (lit "fields", format_field_errors fields)
              ∷ [])
            ∷ [];
      }

  unfoldable pub not_recorded : Transaction D → Text → HandlerReply
  not_recorded tx cause = record {
    response = write_error 500 (lit "transaction could not be recorded") [];
    metrics = ingest_result tx.source failed ∷ [];
    logs =
        log error (lit "could not record transaction") (
          (lit "request_id", request_id)
          ∷ (lit "source", tx.source)
          ∷ (lit "source_reference", tx.source_reference)
          ∷ (lit "error", cause)
          ∷ [])
        ∷ [];
  }

  unfoldable pub log_divergence : Transaction D → IngestOutcome D → LogRecord
  log_divergence submitted outcome =
      log warn (lit "duplicate transaction diverges from the stored record") (
        (lit "request_id", request_id)
        ∷ (lit "source", submitted.source)
        ∷ (lit "source_reference", submitted.source_reference)
        ∷ (lit "stored_id", platform.uuid_text outcome.transaction.id)
        ∷ (lit "stored_fingerprint", fingerprint platform outcome.transaction)
        ∷ (lit "submitted_fingerprint", fingerprint platform submitted)
        ∷ (lit "stored_amount", Amount.to_string platform.decimal outcome.transaction.base_amount)
        ∷ (lit "submitted_amount", Amount.to_string platform.decimal submitted.base_amount)
        ∷ [])

  unfoldable pub recorded : Transaction D → IngestOutcome D → HandlerReply
  recorded tx outcome = record {
    response = record {
      status = if outcome.duplicate then 200 else 201;
      body = result (to_result platform outcome);
    };
    metrics =
        (if outcome.divergent then divergent_replay tx.source ∷ [] else [])
        ++ (ingest_result tx.source (if outcome.duplicate then duplicate else created) ∷ []);
    logs = if outcome.divergent then log_divergence tx outcome ∷ [] else [];
  }

  module _ {S : Type 0} (api : StoreApi S D) (r : Rules) (sys : System) where
    -- The answer to the call of the store.
    unfoldable pub stored_reply :
        Transaction D → S × Result Text (IngestOutcome D) → S × HandlerReply
    stored_reply tx (s, ok outcome) = (s, recorded tx outcome)
    stored_reply tx (s, err cause) = (s, not_recorded tx cause)

    unfoldable pub judged : S → IngestRequest → Verdict D → S × HandlerReply
    judged s body (faulted cause) = (s, not_built body cause)
    judged s body (rejected problems) = (s, refused body problems)
    judged s body (accepted tx) = stored_reply tx (api.ingest s tx)

    unfoldable pub ingest_transaction : S → Result Text IngestRequest → S × HandlerReply
    unfolding judged stored_reply
    ingest_transaction s (err cause) = (s, unreadable cause)
    ingest_transaction s (ok body) = judged s body (accept platform r sys (to_submission body))

-- A request as it meets the handler, with the rules and the readings of that moment.
pub record Push : Type 0 where
  pub request_id : Text
  pub rules : Rules
  pub system : System
  pub request : Result Text IngestRequest

module _ {S D : Type 0} (platform : Platform D) (api : StoreApi S D) where
  unfoldable pub push : S → Push → S × HandlerReply
  push s p = ingest_transaction platform p.request_id api p.rules p.system s p.request

  -- Requests one after the other, in the order in which they meet the store.
  unfoldable pub pushes : S → List Push → S
  unfolding push
  pushes s [] = s
  pushes s (p ∷ ps) = pushes (push s p).0 ps
