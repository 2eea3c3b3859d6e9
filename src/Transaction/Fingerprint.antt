-- ===== src/Transaction/Fingerprint.antt =====
-- internal/transaction/fingerprint.go: the digest of the billable content.
pub mod Laws
use emovis_micro_service.Base.{Text, List, [], Option, none, some, Result, ok, err}
use emovis_micro_service.Base.Clock.{to_utc}
use emovis_micro_service.Platform.{Platform}
use emovis_micro_service.Transaction.Identity.{Plate, Transponder}
use emovis_micro_service.Transaction.Fields.{FingerprintFields}
use emovis_micro_service.Transaction.Model.{Transaction}

-- The text of a field behind a pointer, the empty text where it is nil.
abbrev pub plate_text : (Plate → Text) → Option Plate → Text
plate_text f none = []
plate_text f (some p) = f p

abbrev pub transponder_text : (Transponder → Text) → Option Transponder → Text
transponder_text f none = []
transponder_text f (some t) = f t

-- `json.Marshal` gives nil beside an error, which the caller drops.
unfoldable pub encoded_or_nil : Result Text Text → Text
encoded_or_nil (ok bytes) = bytes
encoded_or_nil (err cause) = []

module _ {D : Type 0} (platform : Platform D) where
  unfoldable pub fields_of : Transaction D → FingerprintFields
  fields_of t = record {
    source = t.source;
    source_reference = t.source_reference;
    kind = t.kind;
    occurred_at = to_utc t.occurred_at;
    plate_number = plate_text (λ p. p.number) t.plate;
    plate_jurisdiction = plate_text (λ p. p.jurisdiction) t.plate;
    transponder = transponder_text (λ p. p.number) t.transponder;
    amount = platform.decimal.to_string t.base_amount.value;
    currency = t.base_amount.currency.code;
    location = t.location;
    metadata = t.metadata;
  }

  unfoldable pub fingerprint : Transaction D → Text
  unfolding encoded_or_nil
  fingerprint t = platform.sha256_hex (encoded_or_nil (platform.marshal_fields (fields_of t)))
