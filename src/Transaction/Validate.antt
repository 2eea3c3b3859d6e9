-- ===== src/Transaction/Validate.antt =====
-- internal/transaction/validate.go: the semantic rules. Each check gives a value and the problem that
-- it found, as in the source; a value beside a problem is the zero value.
pub mod Accepted
pub mod Reports
pub mod Rejected
use emovis_micro_service.Base.{
  ℕ, is_empty, Text, lit, Bool, true, false, ◌&&◌, ℤ, pos, negsuc, is_nonpos, ltb, leb, pos_part,
  ◌*◌, if◌then◌else◌, List, [], ◌∷◌, ◌++◌, take, length, Result, ok, err, Option, none, some,
}
use emovis_micro_service.Base.Case.{CaseTables}
use emovis_micro_service.Base.Clock.{
  Time, minute, zero_instant, utc, time_is_zero, to_utc, add, after,
}
use emovis_micro_service.Base.Format.{Formats, decimal_text}
use emovis_micro_service.Money.Currency
use emovis_micro_service.Money.Currency.{Currency, zero_currency}
use emovis_micro_service.Money.Decimal.{DecimalApi}
use emovis_micro_service.Money.Amount
use emovis_micro_service.Money.Amount.{Amount, ParseError, err_empty, err_syntax, err_scale, parse}
use emovis_micro_service.Platform.{Platform}
use emovis_micro_service.Transaction.Identity.{
  Plate, Transponder, new_plate, new_transponder, plate_is_empty, transponder_is_empty,
}
use emovis_micro_service.Transaction.Types.{TypeSet, canonical}
use emovis_micro_service.Transaction.Model.{
  Uuid, received, priced, PlateRead, Submission, Transaction,
}

pub record RuleError : Type 0 where
  pub field : Text
  pub reason : Text

unfoldable pub rule_error_text : RuleError → Text
rule_error_text e = if is_empty e.field then e.reason else e.field ++ (lit ": " ++ e.reason)

-- `now` and `new_id` are what the injected functions return in this call, `none` where none is set.
pub record Rules : Type 0 where
  pub types : Option TypeSet
  pub default_currency : Currency
  pub max_clock_skew : ℤ
  pub now : Option Time
  pub new_id : Option (Result Text Uuid)

-- What `time.Now` and `uuid.NewV7` return in this call.
pub record System : Type 0 where
  pub clock : Time
  pub new_v7 : Result Text Uuid

-- The three ways in which `Accept` returns.
pub data Verdict (D : Type 0) : Type 0 where
  accepted : Transaction D → Verdict D
  rejected : List RuleError → Verdict D
  faulted : Text → Verdict D

abbrev pub default_max_clock_skew : ℕ
default_max_clock_skew = 5 * minute

abbrev pub max_echoed_value_length : ℕ
max_echoed_value_length = 64

-- "…" is three bytes of UTF-8.
unfoldable pub truncate : Text → ℕ → Text
truncate s limit = if leb (length s) limit then s else take limit s ++ (0xE2 ∷ 0x80 ∷ 0xA6 ∷ [])

unfoldable pub append_if : List RuleError → Option RuleError → List RuleError
append_if problems none = problems
append_if problems (some p) = problems ++ p ∷ []

unfoldable pub problem : Text → Text → Option RuleError
problem f r = some (record { field = f; reason = r })

unfoldable pub skew_of : ℤ → ℕ
skew_of d = if is_nonpos d then default_max_clock_skew else pos_part d

unfoldable pub rules_now : Rules → System → Time
rules_now r sys = elim r.now [ none ↦ to_utc sys.clock | some t ↦ t ]

unfoldable pub rules_new_id : Rules → System → Result Text Uuid
rules_new_id r sys = elim r.new_id [ none ↦ sys.new_v7 | some id ↦ id ]

unfoldable pub amount_reason : ParseError → Currency → Text
amount_reason err_empty c = lit "is required"
amount_reason (err_scale _) c =
    lit "has more than "
    ++ (decimal_text c.exponent
        ++ (lit " decimal places, which " ++ (c.code ++ lit " does not allow")))
amount_reason (err_syntax _) c = lit "must be a decimal string, for example \"12.50\""

unfoldable pub plate_of : Option PlateRead → Option Plate
plate_of none = none
plate_of (some read) =
    let p = new_plate read.number read.jurisdiction in if plate_is_empty p then none else some p

unfoldable pub transponder_of : Text → Option Transponder
transponder_of raw =
    if is_empty raw
    then none
    else (let t = new_transponder raw in if transponder_is_empty t then none else some t)

unfoldable pub identity_problem : Option Plate → Option Transponder → Option RuleError
identity_problem none none =
    problem [] (lit "at least one usable identifier is required: plate or transponder_number")
identity_problem none (some t) = none
identity_problem (some p) _ = none

unfoldable pub validate_identity : Submission → Option Plate × Option Transponder × Option RuleError
validate_identity s =
    let p = plate_of s.plate in let t = transponder_of s.transponder in (p, t, identity_problem p t)

module _ {D : Type 0} (platform : Platform D) where
  found_type : Text → Option Text → Text × Option RuleError
  found_type raw (some name) = (name, none)
  found_type raw none = (
    [],
    problem (lit "transaction_type") (
        lit "unrecognized value " ++ platform.formats.quote (truncate raw max_echoed_value_length)),
  )

  unfoldable pub validate_type : Rules → Text → Text × Option RuleError
  unfolding found_type
  validate_type r raw = elim r.types [
    | none ↦ (
      [],
      problem (lit "transaction_type")
          (lit "no transaction types are configured for this deployment"),
    )
    | some types ↦ found_type raw (canonical platform.tables types raw)
  ]

  unfoldable pub validate_time : Rules → Time → Time → Time × Option RuleError
  validate_time r occurred_at now =
      let skew = skew_of r.max_clock_skew in
      if time_is_zero occurred_at
      then (
        record { instant = zero_instant; location = utc },
        problem (lit "transaction_time_utc") (lit "is required"),
      )
      else if after occurred_at (add now skew)
      then (
        record { instant = zero_instant; location = utc },
        problem (lit "transaction_time_utc")
            (lit "is more than " ++ (platform.formats.duration skew ++ lit " in the future")),
      )
      else (to_utc occurred_at, none)

  found_currency : Text → Option Currency → Currency × Option RuleError
  found_currency raw (some c) = (c, none)
  found_currency raw none = (
    zero_currency,
    problem (lit "currency") (lit "unrecognized ISO-4217 code " ++ platform.formats.quote raw),
  )

  unfoldable pub resolve_currency : Rules → Text → Currency × Option RuleError
  unfolding found_currency
  resolve_currency r raw =
      if is_empty raw
      then (if Currency.is_zero r.default_currency
          then (
            zero_currency,
            problem (lit "currency")
                (lit "is required because this deployment has no default currency configured"),
          )
          else (r.default_currency, none))
      else found_currency raw (Currency.lookup platform.tables raw)

  abbrev pub zero_amount : Amount D
  zero_amount = record { value = platform.decimal.zero; currency = zero_currency; as_received = [] }

  parsed_amount : Currency → Result ParseError (Amount D) → Amount D × Option RuleError
  parsed_amount c (err e) = (zero_amount, problem (lit "base_amount") (amount_reason e c))
  parsed_amount c (ok a) =
      if Amount.is_negative platform.decimal a
      then (zero_amount, problem (lit "base_amount") (lit "must not be negative"))
      else (a, none)

  unfoldable pub validate_amount : Text → Currency → Amount D × Option RuleError
  unfolding parsed_amount
  validate_amount raw c = parsed_amount c (parse platform.decimal raw c)

  -- An amount is not looked at where the currency has a problem.
  unfoldable pub amount_if : Option RuleError → Text → Currency → Amount D × Option RuleError
  amount_if none raw c = validate_amount raw c
  amount_if (some p) raw c = (zero_amount, none)

  -- The end of `Accept`, where no problem was found and an identifier is minted.
  mint : (Uuid → Transaction D) → Result Text Uuid → Verdict D
  mint build (ok id) = accepted (build id)
  mint build (err cause) = faulted (lit "generate transaction id: " ++ cause)

  -- `build` is the transaction literal, over its identifier.
  pub conclude : List RuleError → (Uuid → Transaction D) → Result Text Uuid → Verdict D
  unfolding mint
  conclude problems build new_id =
      if ltb 0 (length problems) then rejected problems else mint build new_id

  unfoldable pub accept : Rules → System → Submission → Verdict D
  unfolding conclude
  accept r sys s =
      let now = rules_now r sys in
      let (kind, type_problem) = validate_type r s.kind in
      let (occurred_at, time_problem) = validate_time r s.occurred_at now in
      let (currency, currency_problem) = resolve_currency r s.currency in
      let (amount, amount_problem) = amount_if currency_problem s.base_amount currency in
      let (plate, transponder, identity_problem) = validate_identity s in
      let problems =
        append_if
          (append_if
            (append_if (append_if (append_if [] type_problem) time_problem) currency_problem)
            amount_problem)
          identity_problem in
      conclude problems
        (λ id. record {
          id = id;
          source = s.source;
          source_reference = s.source_reference;
          kind = kind;
          occurred_at = occurred_at;
          received_at = now;
          plate = plate;
          transponder = transponder;
          base_amount = amount;
          location = s.location;
          metadata = s.metadata;
          association_status = received;
          settlement_status = priced;
        })
        (rules_new_id r sys)
