-- ===== src/HttpApi/Middleware/Passing.antt =====
-- What the client is sent, against what the handler writes.
use mathlib.Core.List.{append-nil}
use emovis_micro_service.Base.{
  ℕ, ◌≡◌, refl, ap, ◌∙◌, Text, List, [], ◌∷◌, ◌++◌, Bool-cases, inl, inr,
}
use emovis_micro_service.HttpApi.Middleware.{
  HttpRequest, Action, set_header, write_header, write, access_log, panic_log, count_request,
  returns, panics, Trace, Handler, max_body, default_max_body_bytes, request_id, is_probe, logger,
  metrics, recover, panic_body, router,
}
use emovis_micro_service.HttpApi.Middleware.Traces.{
  sent_status, sent_status-append_quiet, IsPlain, IsHandled,
}
use emovis_micro_service.HttpApi.Middleware.Accounting.{
  recover-IsPlain, count, metrics-eq, metrics-Accounts, line, logger-eq, inner_request, router-eq,
}

-- The body that goes to the client.
unfoldable pub written : List Action → Text
written [] = []
written (write text ∷ actions) = text ++ written actions
written (set_header key value ∷ actions) = written actions
written (write_header status ∷ actions) = written actions
written (access_log r status bytes ∷ actions) = written actions
written (panic_log r ∷ actions) = written actions
written (count_request method route status ∷ actions) = written actions

written-append_quiet :
    (xs : List Action) (a : Action) → written (a ∷ []) ≡ [] → written (xs ++ (a ∷ [])) ≡ written xs
unfolding written
written-append_quiet [] a h = h
written-append_quiet (write text ∷ xs) a h = ap (λ t. text ++ t) (written-append_quiet xs a h)
written-append_quiet (set_header key value ∷ xs) a h = written-append_quiet xs a h
written-append_quiet (write_header status ∷ xs) a h = written-append_quiet xs a h
written-append_quiet (access_log r status bytes ∷ xs) a h = written-append_quiet xs a h
written-append_quiet (panic_log r ∷ xs) a h = written-append_quiet xs a h
written-append_quiet (count_request method route status ∷ xs) a h = written-append_quiet xs a h

-- What the client is sent.
unfoldable pub shown : Trace → ℕ × Text
shown t = (sent_status t.actions, written t.actions)

shown-more :
    (xs : List Action) (a : Action)
    → sent_status (a ∷ []) ≡ 200
    → written (a ∷ []) ≡ []
    → shown (record { actions = xs ++ (a ∷ []); ending = returns })
      ≡ shown (record { actions = xs; ending = returns })
unfolding shown
shown-more xs a h k = rw (sent_status-append_quiet xs a h, written-append_quiet xs a k) refl

module _ (next : Handler) (r : HttpRequest) where
  pub recover-shown : (next r).ending ≡ returns → recover next r ≡ next r
  unfolding recover
  recover-shown h = simp (h, recover) refl

  metrics-shown : IsPlain (next r) → shown (metrics next r) ≡ shown (next r)
  unfolding count sent_status written shown
  metrics-shown p =
      ap shown (metrics-eq next r p) ∙ shown-more (next r).actions (count next r) refl refl

  logger-shown : IsPlain (next r) → shown (logger (metrics next) r) ≡ shown (metrics next r)
  unfolding line sent_status written shown
  logger-shown p = elim (Bool-cases (is_probe r.path)) [
    | inl probe ↦ ap shown (logger-eq (metrics next) r (metrics-Accounts next r p)) ∙ rw probe refl
    | inr other ↦
        ap shown (logger-eq (metrics next) r (metrics-Accounts next r p))
        ∙ rw other (shown-more (metrics next r).actions (line (metrics next) r) refl refl)
  ]

  -- A handler that panics before it writes is answered 500.
  pub recover-panicked :
      (next r).ending ≡ panics → (next r).actions ≡ [] → shown (recover next r) ≡ (500, panic_body)
  unfolding recover shown sent_status written
  recover-panicked h k = simp (h, k, recover) (ap (λ text. (500, text)) (append-nil panic_body))

-- A request is shown what `Recover` makes of the mux.
pub router-recovered :
    (fresh : Text) (mux : Handler) (r : HttpRequest)
    → IsHandled (mux (inner_request fresh r))
    → shown (router fresh mux r) ≡ shown (recover mux (inner_request fresh r))
unfolding request_id max_body inner_request default_max_body_bytes shown sent_status written
router-recovered fresh mux r h =
    let inner = inner_request fresh r in
    let plain = recover-IsPlain mux inner h in
    ap (λ (f : Handler). shown (f r)) (router-eq fresh mux)
    ∙ logger-shown (recover mux) inner plain
    ∙ metrics-shown (recover mux) inner plain
