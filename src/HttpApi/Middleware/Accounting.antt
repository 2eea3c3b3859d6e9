-- ===== src/HttpApi/Middleware/Accounting.antt =====
-- How often a request is answered, logged and counted, and under which status.
use mathlib.Core.Path.{subst}
use emovis_micro_service.Base.{
  ℕ, ◌≡◌, ◌⊎◌, inl, inr, refl, sym, ap, ◌∙◌, arith, Text, lit, is_empty, ltb, ◌||◌, some,
  if◌then◌else◌, length, List, [], ◌∷◌, ◌++◌, All, All-append, Bool-cases,
}
use emovis_micro_service.HttpApi.Middleware.{
  HttpRequest, Action, set_header, write_header, write, access_log, panic_log, count_request,
  Ending, returns, panics, aborts, Trace, Handler, chain_loop, chain, record_all, new_recorder,
  after_return, request_id, default_max_body_bytes, max_body, is_probe, logger, route_of, metrics,
  panic_body, recover, router,
}
use emovis_micro_service.HttpApi.Middleware.Traces.{
  sent_status, HasCode, record_all-sent, counted, logged, counted-append, logged-append,
  sent_status-append_quiet, IsPlain, IsHandled,
}

Ending-cases : (e : Ending) → (e ≡ returns) ⊎ ((e ≡ panics) ⊎ (e ≡ aborts))
Ending-cases returns = inl refl
Ending-cases panics = inr (inl refl)
Ending-cases aborts = inr (inr refl)

-- What a trace comes to, with the statuses that the log has.
pub record Accounts (t : Trace) (log : List ℕ) : Type 0 where
  pub returned : t.ending ≡ returns
  pub codes : All HasCode t.actions
  pub once : counted t.actions ≡ sent_status t.actions ∷ []
  pub logs : logged t.actions ≡ log

recovered : HttpRequest → Trace → Trace
recovered r t = record {
  actions =
      t.actions
      ++ (panic_log r
          ∷ set_header (lit "Content-Type") (lit "application/json")
          ∷ write_header 500
          ∷ write panic_body
          ∷ []);
  ending = returns;
}

recovered-IsPlain : (r : HttpRequest) (t : Trace) → IsHandled t → IsPlain (recovered r t)
unfolding recovered counted logged
recovered-IsPlain r t h = record {
  returned = refl;
  codes = All-append HasCode t.actions _ h.codes (tt, (tt, (refl, (tt, tt))));
  uncounted = counted-append t.actions _ ∙ ap (λ l. l ++ []) h.uncounted;
  unlogged = logged-append t.actions _ ∙ ap (λ l. l ++ []) h.unlogged;
}

after_return-eq :
    (t : Trace) (more : List Action)
    → t.ending ≡ returns
    → after_return t more ≡ record { actions = t.actions ++ more; ending = returns }
after_return-eq t more h = ground arith

module _ (next : Handler) (r : HttpRequest) where
  pub recover-IsPlain : IsHandled (next r) → IsPlain (recover next r)
  unfolding recover
  recover-IsPlain h = elim (Ending-cases (next r).ending) [
    | inl e ↦
        simp (e, recover)
          (record { returned = e; codes = h.codes; uncounted = h.uncounted; unlogged = h.unlogged })
    | inr (inl e) ↦ simp (e, recover) (unfold recovered in recovered-IsPlain r (next r) h)
    | inr (inr e) ↦ absurd (h.stays e)
  ]

  -- The action that `Metrics` adds.
  unfoldable pub count : Action
  count = count_request r.method (route_of r) (sent_status (next r).actions)

  pub metrics-eq :
      IsPlain (next r)
      → metrics next r ≡ record { actions = (next r).actions ++ (count ∷ []); ending = returns }
  unfolding metrics count
  metrics-eq p =
      simp (record_all-sent new_recorder (next r).actions p.codes)
        (after_return-eq (next r) (count ∷ []) p.returned)

  counted_trace-Accounts :
      IsPlain (next r)
      → Accounts (record { actions = (next r).actions ++ (count ∷ []); ending = returns }) []
  unfolding count counted logged sent_status
  counted_trace-Accounts p = record {
    returned = refl;
    codes = All-append HasCode (next r).actions _ p.codes (tt, tt);
    once =
        counted-append (next r).actions _
        ∙ ap (λ l. l ++ (sent_status (next r).actions ∷ [])) p.uncounted
        ∙ ap (λ s. s ∷ []) (sym (sent_status-append_quiet (next r).actions _ refl));
    logs = logged-append (next r).actions _ ∙ ap (λ l. l ++ []) p.unlogged;
  }

  pub metrics-Accounts : IsPlain (next r) → Accounts (metrics next r) []
  metrics-Accounts p = subst (λ t. Accounts t []) (sym (metrics-eq p)) (counted_trace-Accounts p)

  -- The action that `Logger` adds.
  unfoldable pub line : Action
  line =
      access_log r (sent_status (next r).actions) (record_all new_recorder (next r).actions).bytes

  pub logger-eq :
      Accounts (next r) []
      → logger next r ≡ (
          if is_probe r.path
          then next r
          else record { actions = (next r).actions ++ (line ∷ []); ending = returns })
  unfolding logger line
  logger-eq a = elim (Bool-cases (is_probe r.path)) [
    | inl probe ↦ simp (probe, logger)
    | inr other ↦
        simp (other, logger, record_all-sent new_recorder (next r).actions a.codes)
          (after_return-eq (next r) (line ∷ []) a.returned)
  ]

  logged_trace-Accounts :
      Accounts (next r) []
      → Accounts
          (record { actions = (next r).actions ++ (line ∷ []); ending = returns })
          (sent_status ((next r).actions ++ (line ∷ [])) ∷ [])
  unfolding line counted logged sent_status
  logged_trace-Accounts a =
      let sent = sent_status-append_quiet (next r).actions line refl in
      record {
        returned = refl;
        codes = All-append HasCode (next r).actions _ a.codes (tt, tt);
        once =
            counted-append (next r).actions _
            ∙ ap (λ l. l ++ []) a.once
            ∙ ap (λ s. s ∷ []) (sym sent);
        logs =
            logged-append (next r).actions _
            ∙ ap (λ l. l ++ (sent_status (next r).actions ∷ [])) a.logs
            ∙ ap (λ s. s ∷ []) (sym sent);
      }

  logger-Accounts :
      Accounts (next r) []
      → Accounts
          (logger next r)
          (if is_probe r.path then [] else sent_status (logger next r).actions ∷ [])
  logger-Accounts a = elim (Bool-cases (is_probe r.path)) [
    | inl probe ↦
        subst (λ t. Accounts t (if is_probe r.path then [] else sent_status t.actions ∷ []))
          (sym (logger-eq a)) (simp probe a)
    | inr other ↦
        subst (λ t. Accounts t (if is_probe r.path then [] else sent_status t.actions ∷ []))
          (sym (logger-eq a)) (simp other (logged_trace-Accounts a))
  ]

-- The request as the mux meets it.
unfoldable pub inner_request : Text → HttpRequest → HttpRequest
inner_request fresh r = record r {
  request_id =
      if is_empty r.inbound_id || ltb 128 (length r.inbound_id) then fresh else r.inbound_id;
  body_limit = some default_max_body_bytes;
}

pub router-eq :
    (fresh : Text) (mux : Handler)
    → router fresh mux
      ≡ request_id fresh (max_body default_max_body_bytes (logger (metrics (recover mux))))
unfolding router chain chain_loop
router-eq fresh mux = refl

-- A request that the mux does not abort on purpose, whether it returns or panics, is answered; it is
-- counted once, under the status that the client is sent; and it has one line in the access log, with
-- that status, if it is no probe, and none if it is.
pub router-accounts :
    (fresh : Text) (mux : Handler) (r : HttpRequest)
    → IsHandled (mux (inner_request fresh r))
    → ((router fresh mux r).ending ≡ returns)
      × (counted (router fresh mux r).actions ≡ sent_status (router fresh mux r).actions ∷ [])
      × (logged (router fresh mux r).actions
          ≡ (if is_probe r.path then [] else sent_status (router fresh mux r).actions ∷ []))
unfolding request_id max_body inner_request default_max_body_bytes counted logged sent_status
router-accounts fresh mux r h =
    let inner = inner_request fresh r in
    let a =
      logger-Accounts (metrics (recover mux)) inner
        (metrics-Accounts (recover mux) inner (recover-IsPlain mux inner h)) in
    subst
      (λ (f : Handler).
        ((f r).ending ≡ returns)
        × (counted (f r).actions ≡ sent_status (f r).actions ∷ [])
        × (logged (f r).actions ≡ (if is_probe r.path then [] else sent_status (f r).actions ∷ [])))
      (sym (router-eq fresh mux)) (a.returned, a.once, a.logs)
