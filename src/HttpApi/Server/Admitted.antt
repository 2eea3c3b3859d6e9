-- ===== src/HttpApi/Server/Admitted.antt =====
-- What gets to the store: the requests that the mux sends to the ingest operation and the validator
-- lets through, as the pushes that they are.
use emovis_micro_service.Base.{
  ℕ, ◌⊎◌, inl, inr, Bool, true, false, Bool-cases, Text, if◌then◌else◌, ◌≡◌, refl, sym, ◌∙◌, ap,
  arith, List, [], ◌∷◌, Option, none, some,
}
use emovis_micro_service.Platform.{Platform}
use emovis_micro_service.Store.Interface.{StoreApi}
use emovis_micro_service.Metrics.{Metrics}
use emovis_micro_service.HttpApi.Reply.{Reply}
use emovis_micro_service.HttpApi.Contract.{Refusal}
use emovis_micro_service.HttpApi.Ingest.{Push, push, pushes}
use emovis_micro_service.HttpApi.Middleware.Accounting.{inner_request}
use emovis_micro_service.HttpApi.Middleware.{HttpRequest, Handler, recover, panic_body}
use emovis_micro_service.HttpApi.Telemetry.{record_all}
use emovis_micro_service.HttpApi.Middleware.Passing.{shown, recover-shown, recover-panicked}
use emovis_micro_service.HttpApi.Server.{
  answer, Library, Incoming, Route, live, readies, scrape, ingest, unmatched, matched, wrapped,
  spec_validator, write_json, operation, told, replied, handled, mux, sent, exchange, exchanges,
}
use emovis_micro_service.HttpApi.Server.Traces.{encoded, write_json-shown, IsQuiet, sent-recovered}

abbrev push_of : Incoming → Push
push_of c = record {
  request_id = (inner_request c.fresh_id c.http).request_id;
  rules = c.rules;
  system = c.system;
  request = c.body;
}

abbrev pub let_through : Option Refusal → Incoming → Option Push
let_through none c = some (push_of c)
let_through (some refusal) c = none

abbrev pub admitted_by : Route → Incoming → Option Push
admitted_by live c = none
admitted_by readies c = none
admitted_by scrape c = none
admitted_by ingest c = let_through c.refusal c
admitted_by unmatched c = none

-- The push that a request is, if it gets to the store.
unfoldable pub admitted : Incoming → Option Push
admitted c = admitted_by (matched c.http.pattern) c

abbrev pub perhaps : Option Push → List Push → List Push
perhaps none ps = ps
perhaps (some p) ps = p ∷ ps

unfoldable pub all_admitted : List Incoming → List Push
unfolding admitted
all_admitted [] = []
all_admitted (c ∷ cs) = perhaps (admitted c) (all_admitted cs)

same_push : (p q : Push) → ◌≡◌ {A = Option Push} (some p) (some q) → p ≡ q
same_push p q e = cc

module _ {S D : Type 0} (library : Library) (platform : Platform D) (api : StoreApi S D) where
  -- What a request does to the store.
  abbrev pub pushed : Option Push → S → S
  pushed none s = s
  pushed (some p) s = (push platform api s p).0

  operation-pushed :
      (c : Incoming) (refusal : Option Refusal) (s : S)
      → c.refusal ≡ refusal
      → (operation library platform api c (inner_request c.fresh_id c.http) s).0
        ≡ pushed (let_through refusal c) s
  unfolding operation wrapped spec_validator push
  operation-pushed c none s h = rw h refl
  operation-pushed c (some refusal) s h = rw h refl

  handled-pushed :
      (route : Route) (c : Incoming) (w : S × Metrics)
      → (handled library platform api route c (inner_request c.fresh_id c.http) w).state
        ≡ pushed (admitted_by route c) w.0
  unfolding handled replied
  handled-pushed live c w = refl
  handled-pushed readies c w = refl
  handled-pushed scrape c w = refl
  handled-pushed ingest c w = operation-pushed c c.refusal w.0 refl
  handled-pushed unmatched c w = refl

  pub exchange-pushed :
      (c : Incoming) (s : S) (m : Metrics)
      → (exchange library platform api c (s, m)).0 ≡ pushed (admitted c) s
  unfolding exchange mux admitted inner_request
  exchange-pushed c s m = handled-pushed (matched c.http.pattern) c (s, m)

  pushes-perhaps :
      (o : Option Push) (s : S) (ps : List Push)
      → pushes platform api s (perhaps o ps) ≡ pushes platform api (pushed o s) ps
  unfolding pushes
  pushes-perhaps none s ps = refl
  pushes-perhaps (some p) s ps = refl

  -- Whatever requests are served, in whatever order, the store holds what the admitted ones leave that
  -- are pushed in this order: probes, unknown paths and refused bodies leave nothing.
  pub exchanges-pushes :
      (cs : List Incoming) (s : S) (m : Metrics)
      → (exchanges library platform api cs (s, m)).0 ≡ pushes platform api s (all_admitted cs)
  unfolding exchanges pushes all_admitted
  exchanges-pushes [] s m = refl
  exchanges-pushes (c ∷ cs) s m =
      let w = exchange library platform api c (s, m) in
      exchanges-pushes cs w.0 w.1
      ∙ ap (λ s'. pushes platform api s' (all_admitted cs)) (exchange-pushed c s m)
      ∙ sym (pushes-perhaps (admitted c) s (all_admitted cs))

  operation-reply :
      (c : Incoming) (refusal : Option Refusal) (p : Push) (s : S)
      → c.refusal ≡ refusal
      → let_through refusal c ≡ some p
      → (operation library platform api c (inner_request c.fresh_id c.http) s).1
        ≡ (push platform api s p).1
  unfolding operation wrapped spec_validator push
  operation-reply c none p s h e =
      rw h (ap (λ q. (push platform api s q).1) (same_push (push_of c) p e))
  operation-reply c (some refusal) p s h e = absurd (ground arith)

  -- Whether a call of the collectors panics when an admitted request is served.
  abbrev pub is_lost : Incoming → Push → S × Metrics → Bool
  is_lost c p (s, m) = (record_all library.takes_label c.took (push platform api s p).1.metrics m).1

  handled-trace :
      (route : Route) (c : Incoming) (p : Push) (s : S) (m : Metrics)
      → admitted_by route c ≡ some p
      → (handled library platform api route c (inner_request c.fresh_id c.http) (s, m)).trace
        ≡ told library platform api (is_lost c p (s, m)) (push platform api s p).1
  unfolding handled replied
  handled-trace live c p s m h = absurd (ground arith)
  handled-trace readies c p s m h = absurd (ground arith)
  handled-trace scrape c p s m h = absurd (ground arith)
  handled-trace unmatched c p s m h = absurd (ground arith)
  handled-trace ingest c p s m h =
      ap
        (λ (reply : Reply).
          told library platform api (record_all library.takes_label c.took reply.metrics m).1 reply)
        (operation-reply c c.refusal p s refl h)

  pub mux-trace :
      (c : Incoming) (p : Push) (s : S) (m : Metrics)
      → admitted c ≡ some p
      → (mux library platform api c (inner_request c.fresh_id c.http) (s, m)).trace
        ≡ told library platform api (is_lost c p (s, m)) (push platform api s p).1
  unfolding mux admitted inner_request
  mux-trace c p s m h = handled-trace (matched c.http.pattern) c p s m h

  -- What the client is shown of a reply, where the collectors panicked or not.
  abbrev pub shown_of : Bool → Reply → ℕ × Text
  shown_of panicked reply =
      if panicked
      then (500, panic_body)
      else (reply.response.status, encoded library (answer reply.response.body))

  recover-told :
      (next : Handler) (r : HttpRequest) (panicked : Bool) (reply : Reply)
      → next r ≡ told library platform api panicked reply
      → shown (recover next r) ≡ shown_of panicked reply
  unfolding told
  recover-told next r true reply e =
      recover-panicked next r (ap (λ t. t.ending) e) (ap (λ t. t.actions) e)
  recover-told next r false reply e =
      ap shown (recover-shown next r (ap (λ t. t.ending) e) ∙ e) ∙ write_json-shown library _ _

  -- An admitted request is answered with the status of the handler and with its body, or with the
  -- answer to a panic if the collectors do not take a label of it.
  pub sent-shown :
      (c : Incoming) (p : Push) (s : S) (m : Metrics)
      → IsQuiet library
      → admitted c ≡ some p
      → shown (sent library platform api c (s, m))
        ≡ shown_of (is_lost c p (s, m)) (push platform api s p).1
  unfolding write_json
  sent-shown c p s m quiet h =
      sent-recovered library platform api quiet c (s, m)
      ∙ recover-told (λ r. (mux library platform api c r (s, m)).trace)
          (inner_request c.fresh_id c.http) (is_lost c p (s, m)) (push platform api s p).1
          (mux-trace c p s m h)

  -- A client that is sent a success was answered by the handler.
  pub success-shown :
      (c : Incoming) (p : Push) (s : S) (m : Metrics)
      → IsQuiet library
      → admitted c ≡ some p
      → ((shown (sent library platform api c (s, m))).0 ≡ 201)
        ⊎ ((shown (sent library platform api c (s, m))).0 ≡ 200)
      → ((push platform api s p).1.response.status ≡ 201)
        ⊎ ((push platform api s p).1.response.status ≡ 200)
  success-shown c p s m quiet h success =
      let seen = ap (λ x. x.0) (sent-shown c p s m quiet h) in
      elim (Bool-cases (is_lost c p (s, m))) [
        | inl lost ↦ elim success [ inl x ↦ absurd (ground arith) | inr x ↦ absurd (ground arith) ]
        | inr kept ↦ elim success [ inl x ↦ inl (ground arith) | inr x ↦ inr (ground arith) ]
      ]
