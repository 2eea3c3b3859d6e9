-- ===== src/HttpApi/Server/Answers.antt =====
-- What the answer that a client is sent says of the store, with the panics of the collectors.
use emovis_micro_service.Base.{
  ℕ, Text, Bool, true, false, some, ok, ◌≡◌, ◌⊎◌, inl, inr, sym, ◌∙◌, ap, refl,
}
use mathlib.Core.Path.{subst}
use emovis_micro_service.Platform.{Platform}
use emovis_micro_service.Transaction.Model.{key_of, Transaction}
use emovis_micro_service.Transaction.Validate.{Rules, System, accepted, accept}
use emovis_micro_service.Store.Interface.{StoreApi, IsStore, Recorded, Unchanged}
use emovis_micro_service.Metrics.{Metrics}
use emovis_micro_service.HttpApi.Request.{IngestRequest}
use emovis_micro_service.HttpApi.Reply.{result, Body}
use emovis_micro_service.HttpApi.Reply.{Reply as HandlerReply}
use emovis_micro_service.HttpApi.Mapping.{to_submission, to_result}
use emovis_micro_service.HttpApi.Ingest.{Push, push}
use emovis_micro_service.HttpApi.Ingest.Outcomes.{Answered}
use emovis_micro_service.HttpApi.Ingest.History.{push-Answered}
use emovis_micro_service.HttpApi.Middleware.Passing.{shown}
use emovis_micro_service.HttpApi.Server.{answer, Library, Incoming, sent, exchange}
use emovis_micro_service.HttpApi.Server.Traces.{encoded, IsQuiet}
use emovis_micro_service.HttpApi.Server.Admitted.{
  admitted, is_lost, shown_of, pushed, exchange-pushed, sent-shown,
}

module _ {S D : Type 0} (library : Library) (platform : Platform D) (api : StoreApi S D) where
  -- The two kinds of success, a record that the client is not told of, and the failures. `failed` is
  -- what keeps the client from being told.
  abbrev pub Told : S → Push → Type 0 → ℕ × Text → S → Type 0
  Told s p failed seen s' =
      ((body : IngestRequest) × (tx : Transaction D) × (p.request ≡ ok body)
        × (accept platform p.rules p.system (to_submission body) ≡ accepted tx)
        × (((seen ≡ (
          201,
          encoded library (
              answer (
                result (
                  to_result platform
                    (record { transaction = tx; duplicate = false; divergent = false })))),
        ))
              × Recorded platform api s tx s')
            ⊎ ((old : Transaction D) × (digest : Text) × (seen ≡ (
              200,
              encoded library (
                  answer (
                    result (
                      to_result platform
                        (record { transaction = old; duplicate = true; divergent = false })))),
            ))
                × (api.stored s (key_of tx) ≡ some (old, digest))
                × Unchanged platform api s s')
            ⊎ ((seen.0 ≡ 500) × Recorded platform api s tx s' × failed)))
      ⊎ (((seen.0 ≡ 400) ⊎ (seen.0 ≡ 500)) × Unchanged platform api s s')

  -- A call of the collectors panicked, or the store failed.
  abbrev pub HasFailed : Bool → HandlerReply → Type 0
  HasFailed lost reply = (lost ≡ true) ⊎ (reply.response.status ≡ 500)

  response_eq :
      (reply : HandlerReply) (n : ℕ) (b : Body)
      → reply.response.status ≡ n
      → reply.response.body ≡ b
      → ◌≡◌ {A = ℕ × Text}
          (reply.response.status, encoded library (answer reply.response.body))
          (n, encoded library (answer b))
  response_eq reply n b e f = rw (e, f) refl

  Answered-Told :
      (s : S) (p : Push) (seen : ℕ × Text) (lost : Bool) (out : S × HandlerReply)
      → seen ≡ shown_of library platform api lost out.1
      → Answered platform p.request_id api p.rules p.system s p.request out
      → Told s p (HasFailed lost out.1) seen out.0
  Answered-Told s p seen true out e (inl (body, tx, q, a, inl (st, bd, new))) =
      inl (body, tx, q, a, inr (inr (ap (λ x. x.0) e, new, inl refl)))
  Answered-Told s p seen true out e
        (inl (body, tx, q, a, inr (inl (old, digest, st, bd, known, same)))) =
      inr (inr (ap (λ x. x.0) e), same)
  Answered-Told s p seen true out e (inl (body, tx, q, a, inr (inr (st, new)))) =
      inl (body, tx, q, a, inr (inr (ap (λ x. x.0) e, new, inl refl)))
  Answered-Told s p seen true out e (inr (st, same)) = inr (inr (ap (λ x. x.0) e), same)
  Answered-Told s p seen false out e (inl (body, tx, q, a, inl (st, bd, new))) =
      inl (body, tx, q, a, inl (e ∙ response_eq out.1 201 _ st bd, new))
  Answered-Told s p seen false out e
        (inl (body, tx, q, a, inr (inl (old, digest, st, bd, known, same)))) =
      inl (body, tx, q, a, inr (inl (old, digest, e ∙ response_eq out.1 200 _ st bd, known, same)))
  Answered-Told s p seen false out e (inl (body, tx, q, a, inr (inr (st, new)))) =
      inl (body, tx, q, a, inr (inr (ap (λ x. x.0) e ∙ st, new, inr st)))
  Answered-Told s p seen false out e (inr (inl st, same)) = inr (inl (ap (λ x. x.0) e ∙ st), same)
  Answered-Told s p seen false out e (inr (inr st, same)) = inr (inr (ap (λ x. x.0) e ∙ st), same)

  -- In a valid state of any store that keeps its contract, under rules that give transactions it
  -- can hold, and where the other handlers of the server are quiet: a client whose push the
  -- contract admits and that is sent 201 is told of a transaction that is new and now recorded, and
  -- one that is sent 200 of the one that was recorded before under the key of its push. 400 and 500
  -- say that no record has changed, but for a 500 where the push is now recorded and the store
  -- failed all the same or a call of the collectors panicked.
  pub exchange-Told :
      {IsValid : S → Type 0} {Fits : Transaction D → Type 0}
      (store : IsStore platform api IsValid Fits) (Allowed : Rules → Type 0)
      (fits : (r : Rules) (sys : System) (body : IngestRequest) (tx : Transaction D)
        → Allowed r
        → accept platform r sys (to_submission body) ≡ accepted tx
        → Fits tx)
      (c : Incoming) (p : Push) (s : S) (m : Metrics)
      → IsQuiet library
      → IsValid s
      → Allowed p.rules
      → admitted c ≡ some p
      → Told s p
          (HasFailed (is_lost library platform api c p (s, m)) (push platform api s p).1)
          (shown (sent library platform api c (s, m)))
          (exchange library platform api c (s, m)).0
  exchange-Told store Allowed fits c p s m quiet valid allowed e =
      let lost = is_lost library platform api c p (s, m) in
      let out = push platform api s p in
      subst (λ s'. Told s p (HasFailed lost out.1) (shown (sent library platform api c (s, m))) s')
        (sym (
          exchange-pushed library platform api c s m ∙ ap (λ o. pushed library platform api o s) e))
        (Answered-Told s p _ lost out (sent-shown library platform api c p s m quiet e)
          (push-Answered platform api store Allowed fits s p allowed valid))
