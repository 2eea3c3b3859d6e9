-- ===== src/HttpApi/Server/Traces.antt =====
-- The traces that the handlers of the server leave.
use mathlib.Core.List.{append-nil}
use mathlib.Core.Path.{ap, ◌∙◌}
use emovis_micro_service.Base.{
  ℕ, ◌==◌, ◌≡◌, refl, arith, Text, Bool, true, false, [], ◌∷◌, Option, none, some, Result, ok, err,
  Bool-cases, Option-cases, inl, inr,
}
use emovis_micro_service.Platform.{Platform}
use emovis_micro_service.Transaction.Model.{Transaction, IngestOutcome}
use emovis_micro_service.Transaction.Validate.{
  Rules, System, Verdict, accepted, rejected, faulted, accept,
}
use emovis_micro_service.Store.Interface.{StoreApi}
use emovis_micro_service.Health.{up, down, Report, ready, new_report, handle_ready, handle_live}
use emovis_micro_service.HttpApi.Request.{IngestRequest}
use emovis_micro_service.HttpApi.Mapping.{to_submission}
use emovis_micro_service.HttpApi.Reply.{Reply, write_error}
use emovis_micro_service.HttpApi.Contract.{Refusal, too_large, violates, contract_reply}
use emovis_micro_service.HttpApi.Ingest.{
  unreadable, not_built, refused, not_recorded, recorded, judged, stored_reply, ingest_transaction,
}
use emovis_micro_service.HttpApi.Middleware.{HttpRequest, write, returns, recover}
use emovis_micro_service.Metrics.{Metrics}
use emovis_micro_service.HttpApi.Middleware.Accounting.{inner_request}
use emovis_micro_service.HttpApi.Middleware.Traces.{sent_status, counted, logged, IsHandled}
use emovis_micro_service.HttpApi.Middleware.Passing.{
  written, shown, router-recovered, recover-shown,
}
use emovis_micro_service.HttpApi.Server.{
  Payload, Library, Incoming, Route, live, readies, scrape, ingest, unmatched, write_json, wrapped,
  spec_validator, operation, told, replied, handled, mux, sent,
}

-- What `json.Encoder` makes of a payload, or nothing where it fails.
abbrev pub encoded : Library → Payload → Text
encoded library v = elim (library.encode v) [ none ↦ [] | some text ↦ text ]

pub write_json-IsHandled :
    (library : Library) (status : ℕ) (v : Payload)
    → (status == 0) ≡ false
    → IsHandled (write_json library status v)
unfolding write_json counted logged
write_json-IsHandled library status v h = elim (Option-cases (library.encode v)) [
  | inl e ↦
      simp (e, write_json)
        (record {
          stays = λ e. ground arith;
          codes = (tt, (h, tt));
          uncounted = refl;
          unlogged = refl;
        })
  | inr (text, e) ↦
      simp (e, write_json)
        (record {
          stays = λ e. ground arith;
          codes = (tt, (h, (tt, tt)));
          uncounted = refl;
          unlogged = refl;
        })
]

written_text :
    (o : Option Text)
    → written (elim o [ none ↦ [] | some text ↦ write text ∷ [] ])
      ≡ (elim o [ none ↦ [] | some text ↦ text ])
unfolding written
written_text none = refl
written_text (some text) = append-nil text

pub write_json-shown :
    (library : Library) (status : ℕ) (v : Payload)
    → shown (write_json library status v) ≡ (status, encoded library v)
unfolding write_json shown sent_status written
write_json-shown library status v = ap (λ text. (status, text)) (written_text (library.encode v))

-- A status that is written.
abbrev HasStatus : Reply → Type 0
HasStatus reply = (reply.response.status == 0) ≡ false

contract_reply-HasStatus :
    (id path : Text) (refusal : Refusal) → HasStatus (contract_reply id path refusal)
unfolding contract_reply write_error
contract_reply-HasStatus id path (too_large limit) = refl
contract_reply-HasStatus id path (violates suggested e) = ground arith

module _ {S D : Type 0} (platform : Platform D) (id : Text) (api : StoreApi S D) (r : Rules)
    (sys : System) where
  stored_reply-HasStatus :
      (tx : Transaction D) (c : S × Result Text (IngestOutcome D))
      → HasStatus (stored_reply platform id api r sys tx c).1
  unfolding stored_reply recorded not_recorded write_error
  stored_reply-HasStatus tx (s, ok o) = elim (Bool-cases o.duplicate) [
    | inl d ↦ rw d refl
    | inr d ↦ rw d refl
  ]
  stored_reply-HasStatus tx (s, err cause) = refl

  judged-HasStatus :
      (s : S) (body : IngestRequest) (v : Verdict D)
      → HasStatus (judged platform id api r sys s body v).1
  unfolding judged not_built refused write_error
  judged-HasStatus s body (faulted cause) = refl
  judged-HasStatus s body (rejected problems) = refl
  judged-HasStatus s body (accepted tx) = stored_reply-HasStatus tx (api.ingest s tx)

  ingest_transaction-HasStatus :
      (s : S) (request : Result Text IngestRequest)
      → HasStatus (ingest_transaction platform id api r sys s request).1
  unfolding ingest_transaction unreadable write_error
  ingest_transaction-HasStatus s (err cause) = refl
  ingest_transaction-HasStatus s (ok body) =
      judged-HasStatus s body (accept platform r sys (to_submission body))

-- The handlers of the libraries answer without a word to the middlewares.
pub record IsQuiet (library : Library) : Type 0 where
  pub page : (r : HttpRequest) → IsHandled (library.metrics_page r)
  pub page_returns : (r : HttpRequest) → (library.metrics_page r).ending ≡ returns
  pub lost : (r : HttpRequest) → IsHandled (library.no_route r)
  pub lost_returns : (r : HttpRequest) → (library.no_route r).ending ≡ returns

module _ {S D : Type 0} (library : Library) (platform : Platform D) (api : StoreApi S D)
    (quiet : IsQuiet library) where
  operation-HasStatus :
      (c : Incoming) (refusal : Option Refusal) (r : HttpRequest) (s : S)
      → c.refusal ≡ refusal
      → HasStatus (operation library platform api c r s).1
  unfolding operation wrapped spec_validator
  operation-HasStatus c none r s h =
      rw h (ingest_transaction-HasStatus platform r.request_id api c.rules c.system s c.body)
  operation-HasStatus c (some refusal) r s h =
      rw h (contract_reply-HasStatus r.request_id r.path refusal)

  told-IsHandled :
      (panicked : Bool) (reply : Reply)
      → HasStatus reply
      → IsHandled (told library platform api panicked reply)
  unfolding told counted logged
  told-IsHandled true reply h = record {
    stays = λ e. ground arith;
    codes = tt;
    uncounted = refl;
    unlogged = refl;
  }
  told-IsHandled false reply h = write_json-IsHandled library _ _ h

  handled-IsHandled :
      (route : Route) (c : Incoming) (r : HttpRequest) (w : S × Metrics)
      → IsHandled (handled library platform api route c r w).trace
  unfolding handled replied handle_ready handle_live
  handled-IsHandled live c r w = write_json-IsHandled library 200 _ refl
  handled-IsHandled readies c r w =
      write_json-IsHandled library _ _ (ready_code (ready c.checks new_report))
    where
      ready_code : (report : Report) → ((handle_ready report).code == 0) ≡ false
      ready_code report =
          elim report.status as (λ st. ((elim st [ up ↦ 200 | down ↦ 503 ]) == 0) ≡ false) [
            | up ↦ refl
            | down ↦ refl
          ]
  handled-IsHandled scrape c r w = quiet.page r
  handled-IsHandled ingest c r w =
      told-IsHandled _ (operation library platform api c r w.0).1
        (operation-HasStatus c c.refusal r w.0 refl)
  handled-IsHandled unmatched c r w = quiet.lost r

  pub mux-IsHandled :
      (c : Incoming) (r : HttpRequest) (w : S × Metrics)
      → IsHandled (mux library platform api c r w).trace
  unfolding mux
  mux-IsHandled c r w = handled-IsHandled _ c r w

  -- A request is shown what the handler answers, or the answer to a panic.
  pub sent-recovered :
      (c : Incoming) (w : S × Metrics)
      → shown (sent library platform api c w)
        ≡ shown (
            recover (λ r. (mux library platform api c r w).trace) (inner_request c.fresh_id c.http))
  unfolding sent
  sent-recovered c w =
      router-recovered c.fresh_id (λ r. (mux library platform api c r w).trace) c.http
        (mux-IsHandled c (inner_request c.fresh_id c.http) w)

  pub sent-returned :
      (c : Incoming) (w : S × Metrics)
      → (mux library platform api c (inner_request c.fresh_id c.http) w).trace.ending ≡ returns
      → shown (sent library platform api c w)
        ≡ shown (mux library platform api c (inner_request c.fresh_id c.http) w).trace
  sent-returned c w h =
      sent-recovered c w
      ∙ ap shown (recover-shown (λ r. (mux library platform api c r w).trace) _ h)
