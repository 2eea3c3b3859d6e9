-- ===== src/Store/Postgres/RoundTrip.antt =====
-- What is read back from a row, next to what it was written from.
use mathlib.Core.Path.{subst, ap₂}
use emovis_micro_service.Base.{
  is_empty, Text, false, if◌then◌else◌, [], ◌∷◌, Option, none, some, ok, ◌≡◌, refl, sym, ◌∙◌, arith,
}
use emovis_micro_service.Base.Clock.{to_utc}
use emovis_micro_service.Platform.{Platform}
use emovis_micro_service.Money.Currency
use emovis_micro_service.Money.Currency.{Currency}
use emovis_micro_service.Money.Currency.Table.{lookup-code}
use emovis_micro_service.Money.Amount.{parse}
use emovis_micro_service.Money.Amount.Parsing.{parse_sound}
use emovis_micro_service.Transaction.Identity.{
  Plate, Transponder, canonicalize, new_plate, new_transponder, plate_is_empty,
}
use emovis_micro_service.Transaction.Model.{Submission, PlateRead, Transaction}
use emovis_micro_service.Transaction.Validate.{
  Rules, System, accept, accepted, plate_of, transponder_of,
}
use emovis_micro_service.Transaction.Validate.Accepted.{accept_sound}
use emovis_micro_service.Transaction.Fingerprint.{plate_text, transponder_text}
use emovis_micro_service.Store.Postgres.Database.{Server, stored_row}
use emovis_micro_service.Store.Postgres.{
  nullable, deref, plate_from, transponder_from, row_of, transaction_from, read_currency, read_row,
}

deref-nullable : (s : Text) → deref (nullable s) ≡ s
unfolding deref nullable
deref-nullable [] = refl
deref-nullable (b ∷ s) = refl

-- An identifier that is there has a text.
abbrev pub PlateHasText : Option Plate → Type 0
PlateHasText none = Unit
PlateHasText (some p) = is_empty p.number ≡ false

abbrev pub TransponderHasText : Option Transponder → Type 0
TransponderHasText none = Unit
TransponderHasText (some t) = is_empty t.number ≡ false

plate_round_trip :
    (p : Option Plate)
    → PlateHasText p
    → plate_from
        (nullable (plate_text (λ p. p.number) p))
        (nullable (plate_text (λ p. p.jurisdiction) p))
        (nullable (plate_text (λ p. p.number_key) p))
        (nullable (plate_text (λ p. p.jurisdiction_key) p))
      ≡ p
unfolding plate_from nullable
plate_round_trip none h = refl
plate_round_trip (some p) h = ground (
  arith,
  deref-nullable p.jurisdiction,
  deref-nullable p.number_key,
  deref-nullable p.jurisdiction_key,
)

transponder_round_trip :
    (t : Option Transponder)
    → TransponderHasText t
    → transponder_from
        (nullable (transponder_text (λ t. t.number) t))
        (nullable (transponder_text (λ t. t.number_key) t))
      ≡ t
unfolding transponder_from nullable
transponder_round_trip none h = refl
transponder_round_trip (some t) h = ground (arith, deref-nullable t.number_key)

module _ {D : Type 0} (platform : Platform D) where
  -- What a row gives back, if the server takes it: the amount is the one that its own text parses to,
  -- in the currency that its own code names. Nothing is said of the range of the columns.
  pub record ReadsBack (tx : Transaction D) : Type 0 where
    pub plate : PlateHasText tx.plate
    pub transponder : TransponderHasText tx.transponder
    pub currency :
        Currency.lookup platform.tables tx.base_amount.currency.code ≡ some tx.base_amount.currency
    pub amount :
        parse platform.decimal tx.base_amount.as_received tx.base_amount.currency
        ≡ ok tx.base_amount

  -- A transaction as the server rounds it.
  abbrev pub rounded : Server D → Transaction D → Transaction D
  rounded server tx = record tx {
    occurred_at = to_utc (server.store_time tx.occurred_at);
    received_at = to_utc (server.store_time tx.received_at);
    location = server.store_json tx.location;
    metadata = server.store_json tx.metadata;
  }

  -- A transaction whose identity, currency and amount read back is read back whole, with its
  -- fingerprint: every field is kept, but for the rounding of the times and the normal form of the free-form fields.
  pub read_row-row_of :
      (server : Server D) (tx : Transaction D) (digest : Text) (column : D)
      → ReadsBack tx
      → read_row platform (stored_row server (row_of platform tx digest) column)
        ≡ ok (rounded server tx, digest)
  unfolding read_row stored_row row_of transaction_from read_currency
  read_row-row_of server tx digest column h = ground (
    arith,
    plate_round_trip tx.plate h.plate,
    transponder_round_trip tx.transponder h.transponder,
  )

plate_of-PlateHasText : (q : Option PlateRead) → PlateHasText (plate_of q)
unfolding plate_of new_plate plate_is_empty canonicalize
plate_of-PlateHasText none = tt
plate_of-PlateHasText (some read) = plate_text_of read.number read.jurisdiction
  where
    plate_text_of :
        (n j : Text)
        → PlateHasText (if plate_is_empty (new_plate n j) then none else some (new_plate n j))
    plate_text_of [] j = tt
    plate_text_of (b ∷ n) j = ground arith

transponder_of-TransponderHasText : (raw : Text) → TransponderHasText (transponder_of raw)
unfolding transponder_of new_transponder
transponder_of-TransponderHasText [] = tt
transponder_of-TransponderHasText (b ∷ raw) = ground arith

-- The default currency of a deployment is one of the table, as `config.Load` checks.
abbrev pub HasKnownDefault : {D : Type 0} → Platform D → Rules → Type 0
HasKnownDefault platform r =
    Currency.lookup platform.tables r.default_currency.code ≡ some r.default_currency

-- The identity, the currency and the amount of what `Accept` accepts read back.
pub accepted-ReadsBack :
    {D : Type 0} (platform : Platform D) (r : Rules) (sys : System) (s : Submission)
    (tx : Transaction D)
    → HasKnownDefault platform r
    → accept platform r sys s ≡ accepted tx
    → ReadsBack platform tx
accepted-ReadsBack platform r sys s tx known h =
    let (a, _) = accept_sound platform r sys s tx h in
    let (p, t, _) = a.identity in
    let (value, same, text, _, _) =
      parse_sound platform.decimal s.base_amount a.currency tx.base_amount a.amount.0 in
    record {
      plate = subst PlateHasText (sym p) (plate_of-PlateHasText s.plate);
      transponder =
          subst TransponderHasText (sym t) (transponder_of-TransponderHasText s.transponder);
      currency = ground (arith, lookup-code platform.tables s.currency a.currency);
      amount = ap₂ (parse platform.decimal) text same ∙ a.amount.0;
    }
