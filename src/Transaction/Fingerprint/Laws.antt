-- ===== src/Transaction/Fingerprint/Laws.antt =====
-- What a fingerprint tells apart, and what it does not.
use emovis_micro_service.Base.{Text, ok, ◌≡◌, ◌↔◌, ap, arith}
use emovis_micro_service.Base.Clock.{to_utc}
use emovis_micro_service.Platform.{Platform}
use emovis_micro_service.Transaction.Model.{Transaction}
use emovis_micro_service.Transaction.Fingerprint.{
  plate_text, transponder_text, encoded_or_nil, fields_of, fingerprint,
}

module _ {D : Type 0} (platform : Platform D) where
  -- The billable content: nothing of the identifier, the arrival, the statuses, the canonical keys,
  -- the zone of the time, or the text of the amount.
  pub record SameContent (t u : Transaction D) : Type 0 where
    pub source : t.source ≡ u.source
    pub source_reference : t.source_reference ≡ u.source_reference
    pub kind : t.kind ≡ u.kind
    pub instant : t.occurred_at.instant ≡ u.occurred_at.instant
    pub plate_number : plate_text (λ p. p.number) t.plate ≡ plate_text (λ p. p.number) u.plate
    pub plate_jurisdiction :
        plate_text (λ p. p.jurisdiction) t.plate ≡ plate_text (λ p. p.jurisdiction) u.plate
    pub transponder :
        transponder_text (λ p. p.number) t.transponder
        ≡ transponder_text (λ p. p.number) u.transponder
    pub amount :
        platform.decimal.to_string t.base_amount.value
        ≡ platform.decimal.to_string u.base_amount.value
    pub currency : t.base_amount.currency.code ≡ u.base_amount.currency.code
    pub location : t.location ≡ u.location
    pub metadata : t.metadata ≡ u.metadata

  fields_of-SameContent :
      (t u : Transaction D) → (fields_of platform t ≡ fields_of platform u) ↔ SameContent t u
  unfolding fields_of to_utc
  fields_of-SameContent t u = (λ e. ground arith, λ h. ground arith)

  -- Where both contents can be encoded, by different texts if they differ, and the two texts have
  -- no common digest, two transactions have the same fingerprint exactly if their billable content
  -- is the same.
  pub fingerprint-eq_iff :
      (t u : Transaction D) (a b : Text)
      → platform.marshal_fields (fields_of platform t) ≡ ok a
      → platform.marshal_fields (fields_of platform u) ≡ ok b
      → (a ≡ b → fields_of platform t ≡ fields_of platform u)
      → (platform.sha256_hex a ≡ platform.sha256_hex b → a ≡ b)
      → (fingerprint platform t ≡ fingerprint platform u) ↔ SameContent t u
  unfolding fingerprint
  fingerprint-eq_iff t u a b ea eb separate no_collision = (
    λ e. (fields_of-SameContent t u).0 (separate (no_collision (ground arith))),
    λ h.
        ap (λ f. platform.sha256_hex (encoded_or_nil (platform.marshal_fields f)))
          ((fields_of-SameContent t u).1 h),
  )

  -- The same billable content has the same fingerprint, whatever can be encoded.
  pub fingerprint_of_SameContent :
      (t u : Transaction D) → SameContent t u → fingerprint platform t ≡ fingerprint platform u
  unfolding fingerprint
  fingerprint_of_SameContent t u h =
      ap (λ f. platform.sha256_hex (encoded_or_nil (platform.marshal_fields f)))
        ((fields_of-SameContent t u).1 h)
