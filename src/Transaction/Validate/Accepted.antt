-- ===== src/Transaction/Validate/Accepted.antt =====
-- When `Accept` accepts, described without the order of its checks.
use mathlib.Core.Path.{subst, refl}
use emovis_micro_service.Base.{
  Result, List, is_empty, Text, false, ltb, [], length, ok, Option, none, some, ◌≡◌, ◌≢◌, ◌⊎◌,
  arith,
}
use emovis_micro_service.Base.Clock.{Time, time_is_zero, to_utc, add, after}
use emovis_micro_service.Money.Currency
use emovis_micro_service.Money.Currency.{Currency}
use emovis_micro_service.Money.Amount
use emovis_micro_service.Money.Amount.{Amount, parse}
use emovis_micro_service.Transaction.Identity.{Plate, Transponder}
use emovis_micro_service.Transaction.Types.{TypeSet, canonical}
use emovis_micro_service.Transaction.Model.{Uuid, received, priced, Submission, Transaction}
use emovis_micro_service.Platform.{Platform}
use emovis_micro_service.Transaction.Validate.{
  rules_new_id, rules_now, accepted, accept, conclude, System, Rules, RuleError, skew_of, plate_of,
  transponder_of, append_if, problem, identity_problem, validate_identity, validate_type,
  validate_time, resolve_currency, validate_amount, amount_if,
}

module _ {D : Type 0} (platform : Platform D) (r : Rules) (now : Time) (s : Submission) where
  -- The type is one that the operator has configured, and `kind` is the operator's spelling of it.
  abbrev pub HasType : Text → Type 0
  HasType kind =
      (set : TypeSet) × (r.types ≡ some set) × (canonical platform.tables set s.kind ≡ some kind)

  -- The time is given, and no further ahead than the clock skew.
  abbrev pub HasTime : Time → Type 0
  HasTime at =
      (time_is_zero s.occurred_at ≡ false)
      × (after s.occurred_at (add now (skew_of r.max_clock_skew)) ≡ false)
      × (at ≡ to_utc s.occurred_at)

  -- The currency is the deployment's where none is given, and otherwise the one that is named.
  abbrev pub HasCurrency : Currency → Type 0
  HasCurrency c =
      ((s.currency ≡ []) × (Currency.is_zero r.default_currency ≡ false) × (c ≡ r.default_currency))
      ⊎ ((is_empty s.currency ≡ false) × (Currency.lookup platform.tables s.currency ≡ some c))

  abbrev pub HasAmount : Currency → Amount D → Type 0
  HasAmount c a =
      (parse platform.decimal s.base_amount c ≡ ok a)
      × (Amount.is_negative platform.decimal a ≡ false)

  abbrev pub HasIdentity : Option Plate → Option Transponder → Type 0
  HasIdentity p t =
      (p ≡ plate_of s.plate) × (t ≡ transponder_of s.transponder) × ((p ≢ none) ⊎ (t ≢ none))

  pub record IsAcceptable (tx : Transaction D) : Type 0 where
    pub kind : HasType tx.kind
    pub time : HasTime tx.occurred_at
    pub currency : Currency
    pub currency_found : HasCurrency currency
    pub amount : HasAmount currency tx.base_amount
    pub identity : HasIdentity tx.plate tx.transponder
    pub source : tx.source ≡ s.source
    pub reference : tx.source_reference ≡ s.source_reference
    pub arrival : tx.received_at ≡ now
    pub location : tx.location ≡ s.location
    pub metadata : tx.metadata ≡ s.metadata
    pub association : tx.association_status ≡ received
    pub settlement : tx.settlement_status ≡ priced

  pub type_sound :
      (validate_type platform r s.kind).1 ≡ none → HasType (validate_type platform r s.kind).0
  unfolding validate_type problem
  type_sound h = ground arith

  pub time_sound :
      (validate_time platform r s.occurred_at now).1 ≡ none
      → HasTime (validate_time platform r s.occurred_at now).0
  unfolding validate_time problem
  time_sound h = ground arith

  pub currency_sound :
      (resolve_currency platform r s.currency).1 ≡ none
      → HasCurrency (resolve_currency platform r s.currency).0
  unfolding resolve_currency problem
  currency_sound h = ground arith

  pub amount_sound :
      (c : Currency) (q : Option RuleError)
      → q ≡ none
      → (amount_if platform q s.base_amount c).1 ≡ none
      → HasAmount c (amount_if platform q s.base_amount c).0
  unfolding amount_if validate_amount problem
  amount_sound c q n h = ground arith

  pub identity_sound :
      (validate_identity s).2 ≡ none → HasIdentity (validate_identity s).0 (validate_identity s).1
  unfolding validate_identity identity_problem problem
  identity_sound h = ground arith

  pub type_complete : (kind : Text) → HasType kind → validate_type platform r s.kind ≡ (kind, none)
  unfolding validate_type
  type_complete kind h = ground arith

  pub time_complete :
      (at : Time) → HasTime at → validate_time platform r s.occurred_at now ≡ (at, none)
  unfolding validate_time
  time_complete at h = ground arith

  pub currency_complete :
      (c : Currency) → HasCurrency c → resolve_currency platform r s.currency ≡ (c, none)
  unfolding resolve_currency
  currency_complete c h = ground arith

  pub amount_complete :
      (c : Currency) (a : Amount D)
      → HasAmount c a
      → amount_if platform none s.base_amount c ≡ (a, none)
  unfolding amount_if validate_amount
  amount_complete c a h = ground arith

  pub identity_complete :
      (p : Option Plate) (t : Option Transponder)
      → HasIdentity p t
      → validate_identity s ≡ (p, t, none)
  unfolding validate_identity identity_problem
  identity_complete p t h = ground arith

-- No problem was found exactly if the list is empty.
pub no_problems :
    (a b c d e : Option RuleError)
    → ltb 0 (length (append_if (append_if (append_if (append_if (append_if [] a) b) c) d) e))
      ≡ false
    → (a ≡ none) × (b ≡ none) × (c ≡ none) × (d ≡ none) × (e ≡ none)
unfolding append_if
no_problems a b c d e h = ground arith

conclude-accepted :
    {D : Type 0} (platform : Platform D) (problems : List RuleError) (build : Uuid → Transaction D)
    (new_id : Result Text Uuid) (tx : Transaction D)
    → conclude platform problems build new_id ≡ accepted tx
    → (id : Uuid) × (ltb 0 (length problems) ≡ false) × (new_id ≡ ok id) × (build id ≡ tx)
unfolding conclude
conclude-accepted platform problems build new_id tx h = ground arith

module _ {D : Type 0} (platform : Platform D) (r : Rules) (sys : System) (s : Submission) where
  -- What `Accept` accepts meets every rule, keeps what the producer sent, starts on the two axes as
  -- received and priced, and has the identifier that was minted.
  pub accept_sound :
      (tx : Transaction D)
      → accept platform r sys s ≡ accepted tx
      → IsAcceptable platform r (rules_now r sys) s tx × (rules_new_id r sys ≡ ok tx.id)
  unfolding accept
  accept_sound tx h =
      let now = rules_now r sys in
      let t = validate_type platform r s.kind in
      let o = validate_time platform r s.occurred_at now in
      let c = resolve_currency platform r s.currency in
      let a = amount_if platform c.1 s.base_amount c.0 in
      let i = validate_identity s in
      let (id, good, minted, built) = conclude-accepted platform _ _ (rules_new_id r sys) tx h in
      let (t_ok, o_ok, c_ok, a_ok, i_ok) = no_problems t.1 o.1 c.1 a.1 i.2 good in
      subst (λ tx. IsAcceptable platform r now s tx × (rules_new_id r sys ≡ ok tx.id)) built
        (
          record {
            kind = type_sound platform r now s t_ok;
            time = time_sound platform r now s o_ok;
            currency = c.0;
            currency_found = currency_sound platform r now s c_ok;
            amount = amount_sound platform r now s c.0 c.1 c_ok a_ok;
            identity = identity_sound platform r now s i_ok;
            source = refl;
            reference = refl;
            arrival = refl;
            location = refl;
            metadata = refl;
            association = refl;
            settlement = refl;
          },
          minted,
        )

  -- And what meets every rule is accepted, if an identifier is minted for it.
  pub accept_complete :
      (tx : Transaction D)
      → IsAcceptable platform r (rules_now r sys) s tx
      → rules_new_id r sys ≡ ok tx.id
      → accept platform r sys s ≡ accepted tx
  unfolding accept conclude append_if
  accept_complete tx h minted =
      let now = rules_now r sys in
      simp
        (
          type_complete platform r now s tx.kind h.kind,
          time_complete platform r now s tx.occurred_at h.time,
          currency_complete platform r now s h.currency h.currency_found,
          amount_complete platform r now s h.currency tx.base_amount h.amount,
          identity_complete platform r now s tx.plate tx.transponder h.identity,
          minted,
        )
        (cc)
