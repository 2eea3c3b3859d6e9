-- ===== src/HttpApi/Contract.antt =====
-- internal/httpapi/apierror.go and validation.go: the answer to a request that the contract refuses.
-- The validator is a library; an error of it is a tree.
pub mod Told
use emovis_micro_service.Base.{
  ℕ, ℤ, pos, Text, lit, text_eq, is_empty, Bool, true, false, ◌==◌, ◌&&◌, not, if◌then◌else◌, List,
  [], ◌∷◌, ◌++◌, Option, none, some,
}
use emovis_micro_service.Base.Format.{decimal_text}
use emovis_micro_service.HttpApi.ApiError.{FieldError, join, format_field_errors}
use emovis_micro_service.HttpApi.Reply.{
  Response, LogRecord, info, warn, Metric, validation_failure, Reply, write_error,
}

-- `openapi3.SchemaError`, as far as it is read; no schema, or one without a format, has the empty
-- format.
pub record SchemaError : Type 0 where
  pub pointer : List Text
  pub schema_field : Text
  pub format : Text
  pub reason : Text

-- `openapi3filter.RequestError`: the name of its parameter, if it has one, its reason, and the text of
-- the error that it wraps, if it wraps one.
pub record RequestError : Type 0 where
  pub parameter : Option Text
  pub reason : Text
  pub cause : Option Text

-- An error with what it unwraps to.
mutual
  pub data SpecError : Type 0 where
    multi : SpecErrors → SpecError
    schema : SchemaError → Wrapped → SpecError
    request : RequestError → Wrapped → SpecError
    other : Wrapped → SpecError

  pub data Wrapped : Type 0 where
    nothing : Wrapped
    wraps : SpecError → Wrapped

  pub data SpecErrors : Type 0 where
    no_more : SpecErrors
    more : SpecError → SpecErrors → SpecErrors

-- `reason`
unfoldable pub reason : Text → Option Text → Text
reason primary fallback =
    if is_empty primary
    then elim fallback [ some text ↦ text | none ↦ lit "is invalid" ]
    else primary

-- `fieldErrorFromSchema`
unfoldable pub schema_field_name : SchemaError → Text
schema_field_name e =
    let field = join (lit ".") e.pointer in if is_empty field then lit "body" else field

unfoldable pub field_error_from_schema : SchemaError → FieldError
unfolding schema_field_name reason
field_error_from_schema e =
    let field = schema_field_name e in
    if text_eq e.schema_field (lit "required")
    then record { field = field; reason = lit "is required" }
    else if text_eq e.schema_field (lit "format") && not (is_empty e.format)
    then record { field = field; reason = lit "must be a valid " ++ e.format }
    else record { field = field; reason = reason e.reason none }

unfoldable pub field_error_from_request : RequestError → FieldError
unfolding reason
field_error_from_request e = elim e.parameter [
  | some name ↦ record { field = name; reason = reason e.reason e.cause }
  | none ↦ record { field = lit "body"; reason = reason e.reason e.cause }
]

-- `errors.As` for a schema error and for a request error: the first of the chain.
unfoldable mutual
  pub as_schema : SpecError → Option SchemaError
  as_schema (multi es) = none
  as_schema (schema e w) = some e
  as_schema (request e w) = as_schema_wrapped w
  as_schema (other w) = as_schema_wrapped w

  pub as_schema_wrapped : Wrapped → Option SchemaError
  as_schema_wrapped nothing = none
  as_schema_wrapped (wraps e) = as_schema e

unfoldable mutual
  pub as_request : SpecError → Option RequestError
  as_request (multi es) = none
  as_request (schema e w) = as_request_wrapped w
  as_request (request e w) = some e
  as_request (other w) = as_request_wrapped w

  pub as_request_wrapped : Wrapped → Option RequestError
  as_request_wrapped nothing = none
  as_request_wrapped (wraps e) = as_request e

-- The part of `collectFieldErrors` behind the multiple errors.
unfoldable pub single : SpecError → List FieldError
unfolding field_error_from_schema field_error_from_request as_schema as_request
single e = elim (as_schema e) [
  | some s ↦ field_error_from_schema s ∷ []
  | none ↦ elim (as_request e) [ some r ↦ field_error_from_request r ∷ [] | none ↦ [] ]
]

abbrev or_single : SpecError → Option (List FieldError) → List FieldError
or_single e none = single e
or_single e (some fields) = fields

-- `collectFieldErrors`: what the multiple error holds that the chain of `e` comes to, if it comes to
-- one, and otherwise `e` by itself.
unfoldable mutual
  pub collect_multi : SpecError → Option (List FieldError)
  collect_multi (multi es) = some (collect_all es)
  collect_multi (schema e w) = collect_wrapped w
  collect_multi (request e w) = collect_wrapped w
  collect_multi (other w) = collect_wrapped w

  pub collect_wrapped : Wrapped → Option (List FieldError)
  collect_wrapped nothing = none
  collect_wrapped (wraps e) = collect_multi e

  pub collect_all : SpecErrors → List FieldError
  collect_all no_more = []
  collect_all (more e es) = or_single e (collect_multi e) ++ collect_all es

unfoldable pub field_errors_from_spec_validation : SpecError → List FieldError
field_errors_from_spec_validation e = or_single e (collect_multi e)

-- What the validator reports: a body over the limit, or an error with the status that it suggests.
pub data Refusal : Type 0 where
  too_large : ℕ → Refusal
  violates : ℕ → SpecError → Refusal

unfoldable pub contract_metrics : List FieldError → List Metric
contract_metrics [] = []
contract_metrics (f ∷ fields) =
    validation_failure (lit "unknown") (lit "contract") f.field ∷ contract_metrics fields

-- The `ErrorHandlerWithOpts` of `specValidator`
unfoldable pub contract_reply : Text → Text → Refusal → Reply
unfolding field_errors_from_spec_validation contract_metrics
contract_reply request_id path (too_large limit) = record {
  response = write_error 413 (lit "request body is too large") (
      record {
        field = lit "body";
        reason = lit "must not exceed " ++ (decimal_text (pos limit) ++ lit " bytes");
      }
      ∷ []);
  metrics = [];
  logs =
      record {
        level = warn;
        message = lit "request body exceeded the limit";
        attrs = (lit "request_id", request_id) ∷ (lit "limit_bytes", decimal_text (pos limit)) ∷ [];
      }
      ∷ [];
}
contract_reply request_id path (violates suggested e) =
    let status = if suggested == 0 then 400 else suggested in
    let fields = field_errors_from_spec_validation e in
    record {
      response = write_error status (lit "request does not satisfy the API contract") fields;
      metrics = contract_metrics fields;
      logs =
          record {
            level = info;
            message = lit "request rejected by contract validation";
            attrs =
                (lit "request_id", request_id)
                ∷ (lit "path", path)
                ∷ (lit "status", decimal_text (pos status))
                ∷ (lit "fields", format_field_errors fields)
                ∷ [];
          }
          ∷ [];
    }
