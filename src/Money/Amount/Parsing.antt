-- ===== src/Money/Amount/Parsing.antt =====
-- What `Parse` accepts, and what it says of the rest.
use emovis_micro_service.Base.{
  ℕ, ◌<◌, ◌^◌, leb, Text, true, false, pos, lt_int, int32-small, if◌then◌else◌, ok, err, ◌≡◌, arith,
}
use emovis_micro_service.Money.Currency.{Currency}
use emovis_micro_service.Money.Decimal.{DecimalApi}
use emovis_micro_service.Money.Syntax.{match_string, decimal_places}
use emovis_micro_service.Money.Syntax.Grammar
use emovis_micro_service.Money.Syntax.Grammar.{match_string_iff, places, decimal_places-places}
use emovis_micro_service.Money.Amount.{Amount, err_scale, parse}

module _ {D : Type 0} (dec : DecimalApi D) where
  -- An amount that parses is written in the grammar, keeps the text and the currency that it was
  -- parsed from, has the value that the library reads, and has no more places than the currency.
  pub parse_sound :
      (raw : Text) (c : Currency) (a : Amount D)
      → parse dec raw c ≡ ok a
      → (dec.new_from_string raw ≡ ok a.value)
        × (a.currency ≡ c)
        × (a.as_received ≡ raw)
        × (match_string raw ≡ true)
        × (lt_int c.exponent (decimal_places raw) ≡ false)
  unfolding parse
  parse_sound raw c a h = ground arith

  -- A text of the grammar that the library can read is accepted exactly when it has no more decimal
  -- places than the currency.
  pub parse_iff :
      (raw : Text) (c : Currency) (n : ℕ) (v : D)
      → c.exponent ≡ pos n
      → dec.new_from_string raw ≡ ok v
      → (g : Grammar.Amount raw) → places g < 2 ^ 31
      → parse dec raw c ≡ (
          if leb (places g) n
          then ok (record { value = v; currency = c; as_received = raw })
          else err (err_scale c))
  unfolding parse
  parse_iff raw c n v e r g small = ground (
    arith,
    (match_string_iff raw).1 g,
    decimal_places-places g,
    int32-small (places g) small,
    Grammar.Amount-nonempty g,
  )
