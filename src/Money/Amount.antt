-- ===== src/Money/Amount.antt =====
-- internal/money/money.go: amounts, over the calls of the decimal library.
pub mod Parsing
use emovis_micro_service.Base.{
  is_empty, Text, lit, Bool, ◌&&◌, ℤ, lt_int, if◌then◌else◌, List, ◌++◌, text_eq, Result, ok, err,
  Option, none, some,
}
use emovis_micro_service.Base.Format.{decimal_text}
use emovis_micro_service.Money.Currency.{Currency}
use emovis_micro_service.Money.Decimal.{DecimalApi}
use emovis_micro_service.Money.Syntax.{match_string, decimal_places}

-- The sentinels that a failure of `Parse` wraps: `ErrEmpty`, `ErrSyntax` with the cause of the
-- library if there is one, and `ErrScale` with the currency that it names.
pub data ParseError : Type 0 where
  err_empty : ParseError
  err_syntax : Option Text → ParseError
  err_scale : Currency → ParseError

unfoldable pub parse_error_text : ParseError → Text
parse_error_text err_empty = lit "must not be empty"
parse_error_text (err_syntax none) = lit "must be a decimal string, for example \"12.50\""
parse_error_text (err_syntax (some cause)) =
    lit "must be a decimal string, for example \"12.50\": " ++ cause
parse_error_text (err_scale c) =
    lit "has more decimal places than the currency allows: "
    ++ (c.code ++ (lit " allows " ++ decimal_text c.exponent))

pub record Amount (D : Type 0) : Type 0 where
  pub value : D
  pub currency : Currency
  pub as_received : Text

module _ {D : Type 0} (dec : DecimalApi D) where
  -- The end of `Parse`, behind the call of `decimal.NewFromString`.
  with_scale : Text → Currency → Result Text D → Result ParseError (Amount D)
  with_scale raw c (err cause) = err (err_syntax (some cause))
  with_scale raw c (ok value) =
      if lt_int c.exponent (decimal_places raw)
      then err (err_scale c)
      else ok (record { value = value; currency = c; as_received = raw })

  unfoldable pub parse : Text → Currency → Result ParseError (Amount D)
  unfolding with_scale
  parse raw c =
      if is_empty raw
      then err err_empty
      else if match_string raw
      then with_scale raw c (dec.new_from_string raw)
      else err (err_syntax none)

  unfoldable pub is_negative : Amount D → Bool
  is_negative a = dec.is_negative a.value

  unfoldable pub is_zero : Amount D → Bool
  is_zero a = dec.is_zero a.value

  unfoldable pub equal : Amount D → Amount D → Bool
  equal a b = text_eq a.currency.code b.currency.code && dec.equal a.value b.value

  unfoldable pub to_string : Amount D → Text
  to_string a = dec.string_fixed a.value a.currency.exponent ++ (lit " " ++ a.currency.code)
