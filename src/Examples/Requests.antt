-- ===== src/Examples/Requests.antt =====
-- Requests to the handler and the validation of submissions.
use emovis_micro_service.Base.{
  ℕ, Text, lit, Bool, true, false, is_empty, List, [], ◌∷◌, All, Option, none, some, Result, ok,
  err, ◌≡◌, refl, inl, inr,
}
use emovis_micro_service.Transaction.Validate.{Rules, accept, accepted, rules_now, rules_new_id}
use emovis_micro_service.Transaction.Validate.Accepted.{IsAcceptable, accept_sound, accept_complete}
use emovis_micro_service.Transaction.Validate.Rejected.{accept_reports, ReportsBroken}
use emovis_micro_service.Transaction.Validate.Reports.{problems_of}
use emovis_micro_service.Store.Memory.{Store, new}
use emovis_micro_service.Store.Memory.Contract.{memory_api}
use emovis_micro_service.HttpApi.Mapping.{to_submission, to_result}
use emovis_micro_service.HttpApi.Ingest.{Push, push, ingest_transaction, recorded}
use emovis_micro_service.HttpApi.Ingest.Retry.{body_id}
use emovis_micro_service.Store.Interface.{StoreApi}
use emovis_micro_service.Examples.World.{platform, rules, system, request, toll}

abbrev pub sent : Text → ℕ → Push
sent amount id = record {
  request_id = lit "r1";
  rules = rules;
  system = system id;
  request = ok (request amount);
}

pub accept_first :
    accept platform rules (system 1) (to_submission (request (lit "12.50"))) ≡ accepted (toll 1)
unfolding accept emovis_micro_service.Base.Case.is_ascii emovis_micro_service.Base.Case.to_lower
    emovis_micro_service.Base.Case.to_upper emovis_micro_service.Base.Clock.add
    emovis_micro_service.Base.Clock.after emovis_micro_service.Base.Clock.time_is_zero
    emovis_micro_service.Base.Clock.to_utc emovis_micro_service.Base.Format.decimal_text
    emovis_micro_service.Base.Space.trim_space emovis_micro_service.Base.int32
    emovis_micro_service.Base.text_eq emovis_micro_service.Money.Amount.is_negative
    emovis_micro_service.Money.Amount.parse emovis_micro_service.Money.Currency.currencies
    emovis_micro_service.Money.Currency.entry emovis_micro_service.Money.Currency.find_code
    emovis_micro_service.Money.Currency.is_zero emovis_micro_service.Money.Currency.lookup
    emovis_micro_service.Money.Syntax.all_digits emovis_micro_service.Money.Syntax.decimal_places
    emovis_micro_service.Money.Syntax.last_dot emovis_micro_service.Money.Syntax.match_string
    emovis_micro_service.Money.Syntax.matches_fraction
    emovis_micro_service.Money.Syntax.matches_unsigned emovis_micro_service.Money.Syntax.skip_digits
    emovis_micro_service.Transaction.Identity.canonicalize
    emovis_micro_service.Transaction.Identity.new_plate
    emovis_micro_service.Transaction.Identity.new_transponder
    emovis_micro_service.Transaction.Identity.plate_is_empty
    emovis_micro_service.Transaction.Identity.transponder_is_empty
    emovis_micro_service.Transaction.Types.canonical emovis_micro_service.Transaction.Types.lookup
    emovis_micro_service.Transaction.Types.type_key
    emovis_micro_service.Transaction.Validate.amount_if
    emovis_micro_service.Transaction.Validate.amount_reason
    emovis_micro_service.Transaction.Validate.append_if
    emovis_micro_service.Transaction.Validate.identity_problem
    emovis_micro_service.Transaction.Validate.plate_of
    emovis_micro_service.Transaction.Validate.problem
    emovis_micro_service.Transaction.Validate.resolve_currency
    emovis_micro_service.Transaction.Validate.rules_new_id
    emovis_micro_service.Transaction.Validate.rules_now
    emovis_micro_service.Transaction.Validate.skew_of
    emovis_micro_service.Transaction.Validate.transponder_of
    emovis_micro_service.Transaction.Validate.truncate
    emovis_micro_service.Transaction.Validate.validate_amount
    emovis_micro_service.Transaction.Validate.validate_identity
    emovis_micro_service.Transaction.Validate.validate_time
    emovis_micro_service.Transaction.Validate.validate_type lit to_submission
accept_first = refl

abbrev pub api : StoreApi (Store Text) Text
api = memory_api platform

pub first_created : (push platform api new (sent (lit "12.50") 1)).1.response.status ≡ 201
unfolding push ingest_transaction recorded to_result emovis_micro_service.Store.Memory.ingest
    emovis_micro_service.Base.Maps.get
first_created = simp accept_first refl

pub first_id :
    body_id (push platform api new (sent (lit "12.50") 1)).1.response.body ≡ some (1 ∷ [])
unfolding push ingest_transaction recorded to_result emovis_micro_service.Store.Memory.ingest
    emovis_micro_service.Base.Maps.get
first_id = simp accept_first refl

accept_sound_example :
    IsAcceptable platform rules
      (rules_now rules (system 1))
      (to_submission (request (lit "12.50")))
      (toll 1)
    × (rules_new_id rules (system 1) ≡ ok 1)
accept_sound_example =
    accept_sound platform rules (system 1) (to_submission (request (lit "12.50"))) (toll 1)
      accept_first

id_minted : rules_new_id rules (system 1) ≡ ok 1
unfolding rules_new_id
id_minted = refl

acceptable :
    IsAcceptable platform rules
      (rules_now rules (system 1))
      (to_submission (request (lit "12.50")))
      (toll 1)
acceptable =
    (accept_sound platform rules (system 1) (to_submission (request (lit "12.50"))) (toll 1)
      accept_first).0

accept_complete_example :
    accept platform rules (system 1) (to_submission (request (lit "12.50"))) ≡ accepted (toll 1)
accept_complete_example =
    accept_complete platform rules (system 1) (to_submission (request (lit "12.50"))) (toll 1)
      acceptable id_minted

accept_reports_example :
    ReportsBroken platform rules
      (system 1)
      (to_submission (request (lit "1.234")))
      (problems_of (accept platform rules (system 1) (to_submission (request (lit "1.234")))))
accept_reports_example =
    accept_reports platform rules (system 1) (to_submission (request (lit "1.234")))
      (problems_of (accept platform rules (system 1) (to_submission (request (lit "1.234"))))) refl
