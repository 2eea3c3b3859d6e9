-- ===== src/Transaction/Validate/Rejected.antt =====
-- What `Accept` reports, next to the rules that are broken.
use mathlib.Core.Path.{refl, ap, sym, subst, ◌∙◌}
use emovis_micro_service.Base.{Text, lit, true, List, [], Option, none, some, ◌≡◌, ◌≢◌, ◌↔◌, arith}
use emovis_micro_service.Base.Clock.{Time}
use emovis_micro_service.Money.Currency.{Currency}
use emovis_micro_service.Money.Amount.{Amount}
use emovis_micro_service.Transaction.Model.{Submission}
use emovis_micro_service.Platform.{Platform}
use emovis_micro_service.Transaction.Validate.{
  Rules, System, RuleError, rules_now, plate_of, transponder_of, problem, identity_problem,
  validate_identity, validate_type, validate_time, resolve_currency, validate_amount, amount_if,
  accept,
}
use emovis_micro_service.Transaction.Validate.Accepted.{
  HasType, HasTime, HasCurrency, HasAmount, type_sound, type_complete, time_sound, time_complete,
  currency_sound, currency_complete, amount_sound, amount_complete,
}
use emovis_micro_service.Transaction.Validate.Reports.{
  reports, HasField, problems_of, problems_of-conclude, reports_each,
}

iff_trans : {A B C : Type 0} → A ↔ B → B ↔ C → A ↔ C
iff_trans f g = (λ a. g.0 (f.0 a), λ c. f.1 (g.1 c))

module _ {D : Type 0} (platform : Platform D) (r : Rules) (now : Time) (s : Submission) where
  type_field : HasField (lit "transaction_type") (validate_type platform r s.kind).1
  unfolding validate_type problem
  type_field = ground arith

  time_field : HasField (lit "transaction_time_utc") (validate_time platform r s.occurred_at now).1
  unfolding validate_time problem
  time_field = ground arith

  currency_field : HasField (lit "currency") (resolve_currency platform r s.currency).1
  unfolding resolve_currency problem
  currency_field = ground arith

  amount_field :
      (q : Option RuleError) (c : Currency)
      → HasField (lit "base_amount") (amount_if platform q s.base_amount c).1
  unfolding amount_if validate_amount problem
  amount_field q c = ground arith

  identity_field : HasField [] (validate_identity s).2
  unfolding validate_identity identity_problem problem
  identity_field = ground arith

  type_iff :
      ((validate_type platform r s.kind).1 ≢ none)
      ↔ (¬ ((kind : Text) × HasType platform r now s kind))
  type_iff = (
    λ bad (kind, h). bad (ap (λ p. p.1) (type_complete platform r now s kind h)),
    λ bad e. bad ((validate_type platform r s.kind).0, type_sound platform r now s e),
  )

  time_iff :
      ((validate_time platform r s.occurred_at now).1 ≢ none)
      ↔ (¬ ((at : Time) × HasTime platform r now s at))
  time_iff = (
    λ bad (at, h). bad (ap (λ p. p.1) (time_complete platform r now s at h)),
    λ bad e. bad ((validate_time platform r s.occurred_at now).0, time_sound platform r now s e),
  )

  currency_iff :
      ((resolve_currency platform r s.currency).1 ≢ none)
      ↔ (¬ ((c : Currency) × HasCurrency platform r now s c))
  currency_iff = (
    λ bad (c, h). bad (ap (λ p. p.1) (currency_complete platform r now s c h)),
    λ bad e. bad ((resolve_currency platform r s.currency).0, currency_sound platform r now s e),
  )

  identity_iff :
      ((validate_identity s).2 ≢ none)
      ↔ ((plate_of s.plate ≡ none) × (transponder_of s.transponder ≡ none))
  unfolding validate_identity identity_problem problem
  identity_iff = ground arith

  amount_iff :
      (c : Currency) (q : Option RuleError)
      → resolve_currency platform r s.currency ≡ (c, q)
      → ((amount_if platform q s.base_amount c).1 ≢ none) ↔ (
          (d : Currency) × HasCurrency platform r now s d
          × (¬ ((a : Amount D) × HasAmount platform r now s d a)))
  unfolding amount_if
  amount_iff c none e = (
    λ bad. (
      c,
      rw e at (currency_sound platform r now s (ap (λ p. p.1) e)),
      λ (a, h). bad (ap (λ p. p.1) (amount_complete platform r now s c a h)),
    ),
    λ (d, h, lacks) fine.
        let same : c ≡ d = ap (λ p. p.0) (sym e ∙ currency_complete platform r now s d h) in
        let found : (a : Amount D) × HasAmount platform r now s c a = (
          (amount_if platform none s.base_amount c).0,
          amount_sound platform r now s c none refl fine,
        ) in
        lacks (subst (λ d. (a : Amount D) × HasAmount platform r now s d a) same found),
  )
  amount_iff c (some p) e = (
    λ bad. absurd (bad refl),
    λ (d, h, lacks) fine. cc (ap (λ p. p.1) (sym e ∙ currency_complete platform r now s d h)),
  )

module _ {D : Type 0} (platform : Platform D) (r : Rules) (sys : System) (s : Submission) where
  -- One field for each rule, and the empty field for the identifiers.
  abbrev pub ReportsBroken : List RuleError → Type 0
  ReportsBroken es =
      ((reports (lit "transaction_type") es ≡ true)
        ↔ (¬ ((kind : Text) × HasType platform r (rules_now r sys) s kind)))
      × ((reports (lit "transaction_time_utc") es ≡ true)
          ↔ (¬ ((at : Time) × HasTime platform r (rules_now r sys) s at)))
      × ((reports (lit "currency") es ≡ true)
          ↔ (¬ ((c : Currency) × HasCurrency platform r (rules_now r sys) s c)))
      × ((reports (lit "base_amount") es ≡ true) ↔ (
          (c : Currency) × HasCurrency platform r (rules_now r sys) s c
          × (¬ ((a : Amount D) × HasAmount platform r (rules_now r sys) s c a))))
      × ((reports [] es ≡ true)
          ↔ ((plate_of s.plate ≡ none) × (transponder_of s.transponder ≡ none)))

  -- `Accept` reports a field exactly if its rule is broken: the type, the time, the currency, the
  -- amount, which is only looked at where the currency is known, and, with no field, the identifiers.
  pub accept_reports :
      (es : List RuleError) → es ≡ problems_of (accept platform r sys s) → ReportsBroken es
  unfolding accept
  accept_reports es e =
      let now = rules_now r sys in
      let t = validate_type platform r s.kind in
      let o = validate_time platform r s.occurred_at now in
      let c = resolve_currency platform r s.currency in
      let a = amount_if platform c.1 s.base_amount c.0 in
      let i = validate_identity s in
      let (rt, ro, rc, ra, ri) =
        reports_each t.1 o.1 c.1 a.1 i.2 (type_field platform r now s) (time_field platform r now s)
          (currency_field platform r now s) (amount_field platform r now s c.1 c.0)
          (identity_field platform r now s) es (e ∙ problems_of-conclude platform _ _ _) in
      (
        iff_trans rt (type_iff platform r now s),
        iff_trans ro (time_iff platform r now s),
        iff_trans rc (currency_iff platform r now s),
        iff_trans ra (amount_iff platform r now s c.0 c.1 refl),
        iff_trans ri (identity_iff platform r now s),
      )
