-- ===== src/HttpApi/Ingest/Retry.antt =====
-- The reply of the handler to a push of a key that is known.
use mathlib.Core.Path.{subst}
use emovis_micro_service.Base.{
  Text, Option, none, some, Result, ok, ◌≡◌, ◌⊎◌, inl, inr, arith, ap, ◌∙◌,
}
use emovis_micro_service.Platform.{Platform}
use emovis_micro_service.Transaction.Model.{Key, key_eq_iff, key_of, Transaction}
use emovis_micro_service.Transaction.Fingerprint.{fingerprint}
use emovis_micro_service.Transaction.Validate.{Rules, System, accepted, accept}
use emovis_micro_service.Transaction.Validate.Accepted.{accept_sound}
use emovis_micro_service.Store.Interface.{Recorded, StoreApi, IsStore}
use emovis_micro_service.HttpApi.Request.{IngestRequest}
use emovis_micro_service.HttpApi.Reply.{Response, Body, result, failure}
use emovis_micro_service.HttpApi.Reply.{Reply as HandlerReply}
use emovis_micro_service.HttpApi.Mapping.{to_submission, to_result}
use emovis_micro_service.HttpApi.Ingest.Outcomes.{Answered}

-- The identifier that a response carries.
abbrev pub body_id : Body → Option Text
body_id (result res) = some res.id
body_id (failure status message fields) = none

abbrev pub request_key : IngestRequest → Key
request_key body = record { source = body.source; source_reference = body.source_reference }

module _ {S D : Type 0} (platform : Platform D) (api : StoreApi S D) where
  -- The key of what is accepted is the key that was pushed.
  pub accepted_key :
      (r : Rules) (sys : System) (body : IngestRequest) (tx : Transaction D)
      → accept platform r sys (to_submission body) ≡ accepted tx
      → key_of tx ≡ request_key body
  unfolding key_of to_submission
  accepted_key r sys body tx h =
      let (a, _) = accept_sound platform r sys (to_submission body) tx h in
      cc (a.source, a.reference)

  -- A record is stored under this key, with this identifier.
  abbrev pub HasId : S → Key → Text → Type 0
  HasId s k id =
      (tx : Transaction D) × (digest : Text) × (api.stored s k ≡ some (tx, digest))
      × (platform.uuid_text tx.id ≡ id)

  abbrev pub IsSuccess : Response → Type 0
  IsSuccess res = (res.status ≡ 201) ⊎ (res.status ≡ 200)

  module _ {IsValid : S → Type 0} {Fits : Transaction D → Type 0}
      (store : IsStore platform api IsValid Fits) where
    Recorded-HasId :
        (s s' : S) (tx : Transaction D) (k : Key)
        → Recorded platform api s tx s'
        → key_of tx ≡ k
        → HasId s' k (platform.uuid_text tx.id)
    Recorded-HasId s s' tx k (fresh, after) same = (
      api.as_stored tx,
      fingerprint platform tx,
      ground (arith, after k, key_eq_iff (key_of tx) k),
      ap platform.uuid_text (store.same_id tx),
    )

    pub success-HasId :
        (request_id : Text) (r : Rules) (sys : System) (s : S) (body : IngestRequest)
        (out : S × HandlerReply) (id : Text)
        → Answered platform request_id api r sys s (ok body) out
        → IsSuccess out.1.response
        → body_id out.1.response.body ≡ some id
        → HasId out.0 (request_key body) id
    unfolding to_result
    success-HasId request_id r sys s body out id (inl (b, tx, eb, a, inl (st, bd, new))) good e =
        let named : platform.uuid_text tx.id ≡ id = ground arith in
        subst (HasId out.0 (request_key body)) named
          (Recorded-HasId s out.0 tx (request_key body) new (cc (accepted_key r sys b tx a, eb)))
    success-HasId request_id r sys s body out id
          (inl (b, tx, eb, a, inr (inl (old, digest, st, bd, known, after)))) good e =
        let same = accepted_key r sys b tx a in
        (old, digest, ground (arith, after (request_key body)), ground arith)
    success-HasId request_id r sys s body out id (inl (b, tx, eb, a, inr (inr (st, new)))) good e =
        absurd (ground arith)
    success-HasId request_id r sys s body out id (inr (st, after)) good e = absurd (ground arith)

    HasId-Recorded :
        (s s' : S) (tx : Transaction D) (k : Key) (id : Text)
        → Recorded platform api s tx s'
        → HasId s k id
        → HasId s' k id
    HasId-Recorded s s' tx k id (fresh, after) (t, g, known, i) =
        (t, g, ground (arith, after k, key_eq_iff (key_of tx) k), i)

    pub HasId-kept :
        (request_id : Text) (r : Rules) (sys : System) (s : S) (request : Result Text IngestRequest)
        (out : S × HandlerReply) (k : Key) (id : Text)
        → Answered platform request_id api r sys s request out
        → HasId s k id
        → HasId out.0 k id
    HasId-kept request_id r sys s request out k id (inl (b, tx, eb, a, inl (st, bd, new))) h =
        HasId-Recorded s out.0 tx k id new h
    HasId-kept request_id r sys s request out k id
          (inl (b, tx, eb, a, inr (inl (old, digest, st, bd, was, after)))) (t, g, known, i) =
        (t, g, after k ∙ known, i)
    HasId-kept request_id r sys s request out k id (inl (b, tx, eb, a, inr (inr (st, new)))) h =
        HasId-Recorded s out.0 tx k id new h
    HasId-kept request_id r sys s request out k id (inr (st, after)) (t, g, known, i) =
        (t, g, after k ∙ known, i)

  -- A push under a key that is stored: the call fails, or it answers 200 with the stored
  -- identifier; the records stay as they were either way.
  abbrev pub Repeated : S → Text → S × HandlerReply → Type 0
  Repeated s id (s', reply) =
      (((reply.response.status ≡ 200) × (body_id reply.response.body ≡ some id))
        ⊎ ((reply.response.status ≡ 400) ⊎ (reply.response.status ≡ 500)))
      × ((k : Key) → api.stored s' k ≡ api.stored s k)

  pub stored-Repeated :
      (request_id : Text) (r : Rules) (sys : System) (s : S) (body : IngestRequest)
      (out : S × HandlerReply) (id : Text)
      → Answered platform request_id api r sys s (ok body) out
      → HasId s (request_key body) id
      → Repeated s id out
  unfolding to_result
  stored-Repeated request_id r sys s body out id (inl (b, tx, eb, a, inl (st, bd, (fresh, after))))
        (t, g, known, i) =
      let same = accepted_key r sys b tx a in absurd (ground arith)
  stored-Repeated request_id r sys s body out id
        (inl (b, tx, eb, a, inr (inl (old, digest, st, bd, was, after)))) (t, g, known, i) =
      let same = accepted_key r sys b tx a in (inl (st, ground arith), after)
  stored-Repeated request_id r sys s body out id
        (inl (b, tx, eb, a, inr (inr (st, (fresh, after))))) (t, g, known, i) =
      let same = accepted_key r sys b tx a in absurd (ground arith)
  stored-Repeated request_id r sys s body out id (inr (st, after)) (t, g, known, i) =
      (inr st, after)
