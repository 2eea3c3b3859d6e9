-- ===== src/HttpApi/Reply.antt =====
-- What a handler gives: the response, and what it reports to the metrics and the log. The time that a
-- request took is given where the metrics are recorded.
use emovis_micro_service.Base.{ℕ, Text, is_empty, if◌then◌else◌, List, Option, none, some}
use emovis_micro_service.HttpApi.Request.{IngestResult}
use emovis_micro_service.HttpApi.ApiError.{FieldError, format_field_errors}

-- The `Error` schema: its code, its message, and its fields where there are any.
pub data Body : Type 0 where
  failure : ℕ → Text → Option Text → Body
  result : IngestResult → Body

pub record Response : Type 0 where
  pub status : ℕ
  pub body : Body

pub data Level : Type 0 where
  info warn error : Level

pub record LogRecord : Type 0 where
  pub level : Level
  pub message : Text
  pub attrs : List (Text × Text)

-- The values of the `result` label.
pub data Label : Type 0 where
  created duplicate rejected failed : Label

pub data Metric : Type 0 where
  ingest_result : Text → Label → Metric
  validation_failure : Text → Text → Text → Metric
  divergent_replay : Text → Metric

pub record Reply : Type 0 where
  pub response : Response
  pub metrics : List Metric
  pub logs : List LogRecord

-- `writeError`
unfoldable pub write_error : ℕ → Text → List FieldError → Response
write_error status message fields =
    let formatted = format_field_errors fields in
    record {
      status = status;
      body = failure status message (if is_empty formatted then none else some formatted);
    }
