-- ===== src/Transaction/Validate/Reports.antt =====
-- The fields that a list of problems names.
use mathlib.Core.Path.{refl}
use emovis_micro_service.Base.{
  Text, lit, Bool, true, false, ◌||◌, List, [], ◌∷◌, Result, Option, none, some, ◌≡◌, ◌≢◌, ◌↔◌,
  arith, text_eq, text_eq_iff, text_eq_refl,
}
use emovis_micro_service.Transaction.Model.{Uuid, Transaction}
use emovis_micro_service.Platform.{Platform}
use emovis_micro_service.Transaction.Validate.{
  RuleError, Verdict, accepted, rejected, faulted, append_if, conclude,
}

-- Whether a problem with this field is among those reported.
abbrev pub reports : Text → List RuleError → Bool
reports f [] = false
reports f (e ∷ es) = text_eq e.field f || reports f es

abbrev reports_opt : Text → Option RuleError → Bool
reports_opt f none = false
reports_opt f (some e) = text_eq e.field f

abbrev pub HasField : Text → Option RuleError → Type 0
HasField f none = Unit
HasField f (some e) = e.field ≡ f

reports-append_if :
    (f : Text) (es : List RuleError) (q : Option RuleError)
    → reports f (append_if es q) ≡ (reports f es || reports_opt f q)
unfolding append_if
reports-append_if f [] none = refl
reports-append_if f [] (some p) = ground arith
reports-append_if f (e ∷ es) none = ground arith
reports-append_if f (e ∷ es) (some p) = ground (arith, reports-append_if f es (some p))

reports_other :
    (f g : Text) (q : Option RuleError)
    → HasField f q
    → text_eq f g ≡ false
    → reports_opt g q ≡ false
reports_other f g none h e = refl
reports_other f g (some p) h e = rw h e

reports_own :
    (f : Text) (q : Option RuleError) → HasField f q → (reports_opt f q ≡ true) ↔ (q ≢ none)
reports_own f none h = ground arith
reports_own f (some p) h = ground (arith, text_eq_iff p.field f)

-- The problems that a call hands back.
abbrev pub problems_of : {D : Type 0} → Verdict D → List RuleError
problems_of (accepted tx) = []
problems_of (rejected es) = es
problems_of (faulted cause) = []

pub problems_of-conclude :
    {D : Type 0} (platform : Platform D) (es : List RuleError) (build : Uuid → Transaction D)
    (new_id : Result Text Uuid)
    → problems_of (conclude platform es build new_id) ≡ es
unfolding conclude
problems_of-conclude platform es build new_id = ground arith

-- The fields that the five checks name differ.
abbrev Differ : Text → Text → Type 0
Differ f g = (text_eq f g ≡ false) × (text_eq g f ≡ false)

fields-Differ :
    Differ (lit "transaction_type") (lit "transaction_time_utc")
    × Differ (lit "transaction_type") (lit "currency")
    × Differ (lit "transaction_type") (lit "base_amount")
    × Differ (lit "transaction_type") []
    × Differ (lit "transaction_time_utc") (lit "currency")
    × Differ (lit "transaction_time_utc") (lit "base_amount")
    × Differ (lit "transaction_time_utc") []
    × Differ (lit "currency") (lit "base_amount")
    × Differ (lit "currency") []
    × Differ (lit "base_amount") []
unfolding text_eq lit
fields-Differ = (
  (refl, refl),
  (refl, refl),
  (refl, refl),
  (refl, refl),
  (refl, refl),
  (refl, refl),
  (refl, refl),
  (refl, refl),
  (refl, refl),
  (refl, refl),
)

-- Five problems, each with its own field: the list reports a field exactly if its check found one.
pub reports_each :
    (t o c a i : Option RuleError)
    → HasField (lit "transaction_type") t
    → HasField (lit "transaction_time_utc") o
    → HasField (lit "currency") c
    → HasField (lit "base_amount") a
    → HasField [] i
    → (es : List RuleError)
    → es ≡ append_if (append_if (append_if (append_if (append_if [] t) o) c) a) i
    → ((reports (lit "transaction_type") es ≡ true) ↔ (t ≢ none))
      × ((reports (lit "transaction_time_utc") es ≡ true) ↔ (o ≢ none))
      × ((reports (lit "currency") es ≡ true) ↔ (c ≢ none))
      × ((reports (lit "base_amount") es ≡ true) ↔ (a ≢ none))
      × ((reports [] es ≡ true) ↔ (i ≢ none))
unfolding append_if
reports_each t o c a i ht ho hc ha hi es e = rw e (
    let d = fields-Differ in
    (
      ground (arith, d, text_eq_refl (lit "transaction_type")),
      ground (arith, d, text_eq_refl (lit "transaction_time_utc")),
      ground (arith, d, text_eq_refl (lit "currency")),
      ground (arith, d, text_eq_refl (lit "base_amount")),
      ground (arith, d, text_eq_refl []),
    ))
