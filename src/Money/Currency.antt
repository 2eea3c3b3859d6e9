-- ===== src/Money/Currency.antt =====
-- internal/money/currency.go
pub mod Table
use emovis_micro_service.Base.{
  is_empty, ℕ, Text, lit, String, Bool, ℤ, pos, List, [], ◌∷◌, Option, none, some, text_eq,
  if◌then◌else◌, map,
}
use emovis_micro_service.Base.Space.{trim_space}
use emovis_micro_service.Base.Case.{CaseTables, to_upper}

pub record Currency : Type 0 where
  pub code : Text
  pub exponent : ℤ

abbrev pub zero_currency : Currency
zero_currency = record { code = []; exponent = pos 0 }

unfoldable pub is_zero : Currency → Bool
is_zero c = is_empty c.code

-- An entry `code: {Code: code, Exponent: n}` of the table.
unfoldable pub entry : String → ℕ → Currency
unfolding lit
entry code n = record { code = lit code; exponent = pos n }

-- The table; each code is the map key of its own entry.
unfoldable pub currencies : List Currency
unfolding entry
currencies =
    entry "USD" 2
    ∷ entry "CAD" 2
    ∷ entry "MXN" 2
    ∷ entry "EUR" 2
    ∷ entry "GBP" 2
    ∷ entry "SEK" 2
    ∷ entry "NOK" 2
    ∷ entry "DKK" 2
    ∷ entry "CHF" 2
    ∷ entry "PLN" 2
    ∷ entry "CZK" 2
    ∷ entry "ISK" 0
    ∷ entry "AED" 2
    ∷ entry "SAR" 2
    ∷ entry "QAR" 2
    ∷ entry "ILS" 2
    ∷ entry "BHD" 3
    ∷ entry "KWD" 3
    ∷ entry "OMR" 3
    ∷ entry "JOD" 3
    ∷ entry "TND" 3
    ∷ entry "AUD" 2
    ∷ entry "NZD" 2
    ∷ entry "SGD" 2
    ∷ entry "INR" 2
    ∷ entry "JPY" 0
    ∷ entry "KRW" 0
    ∷ entry "BRL" 2
    ∷ entry "CLP" 0
    ∷ []

-- `currencies[key]`
unfoldable pub find_code : Text → List Currency → Option Currency
find_code key [] = none
find_code key (c ∷ cs) = if text_eq c.code key then some c else find_code key cs

module _ (tables : CaseTables) where
  unfoldable pub lookup : Text → Option Currency
  lookup code = find_code (to_upper tables (trim_space code)) currencies

unfoldable pub codes : List Text
unfolding currencies
codes = map (λ c. c.code) currencies
