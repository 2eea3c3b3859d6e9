-- ===== src/Examples/Domain.antt =====
-- Amounts, currencies, identifiers, types, fingerprints and field errors.
use emovis_micro_service.Base.{
  ℕ, ◌<◌, ◌^◌, leb, int32, Text, lit, is_empty, Bool, true, false, if◌then◌else◌, List, [], ◌∷◌,
  map, Option, none, some, Result, ok, err, ◌≡◌, ◌↔◌, refl, arith, ℤ, pos,
}
use emovis_micro_service.Base.Case.{upper_byte}
use emovis_micro_service.Money.Currency
use emovis_micro_service.Money.Amount.{parse, err_scale}
use emovis_micro_service.Money.Amount.Parsing.{parse_iff}
use emovis_micro_service.Money.Syntax.{match_string}
use emovis_micro_service.Money.Syntax.Grammar
use emovis_micro_service.Money.Syntax.Grammar.{
  unsigned, fraction, negative, positive, places, match_string_iff, decimal_places-places,
}
use emovis_micro_service.Transaction.Fingerprint.{fields_of, fingerprint}
use emovis_micro_service.Transaction.Fingerprint.Laws.{SameContent, fingerprint-eq_iff}
use emovis_micro_service.Base.Compact.{SameTexts}
use emovis_micro_service.HttpApi.ApiError.{FieldError, parts_of}
use emovis_micro_service.Examples.World.{platform, usd, toll}

abbrev amount_text : Text
amount_text = b'-' ∷ b'1' ∷ b'2' ∷ b'.' ∷ b'5' ∷ b'0' ∷ b'5' ∷ []

-- -12.505
minus_amount : Grammar.Amount amount_text
minus_amount = negative (b'1' ∷ b'2' ∷ b'.' ∷ b'5' ∷ b'0' ∷ b'5' ∷ []) (
    unsigned (b'1' ∷ b'2' ∷ []) (b'.' ∷ b'5' ∷ b'0' ∷ b'5' ∷ [])
      ((omega arith, omega arith), ((omega arith, omega arith), tt))
      (fraction (b'5' ∷ b'0' ∷ b'5' ∷ []) (
        (omega arith, omega arith),
        ((omega arith, omega arith), ((omega arith, omega arith), tt)),
      )))

match_string_iff_example : (match_string amount_text ≡ true) ↔ Grammar.Amount amount_text
match_string_iff_example = match_string_iff amount_text

three_places : places minus_amount < 2 ^ 31
unfolding minus_amount
three_places = omega arith

parse_iff_example : parse platform.decimal amount_text usd ≡ (
    if leb (places minus_amount) 2
    then ok (record { value = amount_text; currency = usd; as_received = amount_text })
    else err (err_scale usd))
parse_iff_example =
    parse_iff platform.decimal amount_text usd 2 amount_text refl refl minus_amount three_places

usd_found : Currency.lookup platform.tables (lit " usd ") ≡ some usd
unfolding Currency.currencies Currency.find_code Currency.lookup
    emovis_micro_service.Base.Case.to_upper emovis_micro_service.Base.Space.trim_space
    emovis_micro_service.Base.text_eq
usd_found = refl

encoded : platform.marshal_fields (fields_of platform (toll 1)) ≡ ok (lit "lane-712.50")
unfolding fields_of lit
encoded = refl

encoded_again : platform.marshal_fields (fields_of platform (toll 2)) ≡ ok (lit "lane-712.50")
unfolding fields_of lit
encoded_again = refl

same_fields :
    lit "lane-712.50" ≡ lit "lane-712.50"
    → fields_of platform (toll 1) ≡ fields_of platform (toll 2)
unfolding fields_of
same_fields e = refl

fingerprint-eq_iff_example :
    (fingerprint platform (toll 1) ≡ fingerprint platform (toll 2))
    ↔ SameContent platform (toll 1) (toll 2)
fingerprint-eq_iff_example =
    fingerprint-eq_iff platform (toll 1) (toll 2) (lit "lane-712.50") (lit "lane-712.50") encoded
      encoded_again same_fields (λ e. e)

abbrev errors : List FieldError
errors =
    record { field = lit "base_amount"; reason = lit "is required" }
    ∷ record { field = lit "source"; reason = lit "is required" }
    ∷ []

abbrev errors_again : List FieldError
errors_again =
    record { field = lit "source"; reason = lit "is required" }
    ∷ record { field = lit "base_amount"; reason = lit "is required" }
    ∷ record { field = lit "source"; reason = lit "is required" }
    ∷ []

same_texts : SameTexts (parts_of errors) (parts_of errors_again)
unfolding parts_of
same_texts a = ground arith
