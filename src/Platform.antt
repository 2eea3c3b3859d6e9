-- ===== src/Platform.antt =====
-- What the program takes from code outside the repository, and the parts of the Go standard library
-- that rest on tables or algorithms that it does not rely on. Every definition that needs one of
-- these takes this record as a parameter.
use emovis_micro_service.Base.{Text, Result, ℕ}
use emovis_micro_service.Base.Case.{CaseTables}
use emovis_micro_service.Base.Format.{Formats}
use emovis_micro_service.Money.Decimal.{DecimalApi}
use emovis_micro_service.Transaction.Fields.{FingerprintFields}
use emovis_micro_service.Outbox.Body.{TransactionReceived}

pub record Platform (D : Type 0) : Type 0 where
  pub tables : CaseTables
  pub formats : Formats
  pub decimal : DecimalApi D
  -- `json.Marshal` on the two types that are encoded
  pub marshal_fields : FingerprintFields → Result Text Text
  pub marshal_body : TransactionReceived → Result Text Text
  -- `sha256.Sum256` and `hex.EncodeToString`
  pub sha256_hex : Text → Text
  -- `uuid.UUID.String`
  pub uuid_text : ℕ → Text
