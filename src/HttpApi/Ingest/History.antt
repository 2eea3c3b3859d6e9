-- ===== src/HttpApi/Ingest/History.antt =====
-- The replies of the handler over histories of pushes.
use mathlib.Core.Path.{subst}
use emovis_micro_service.Base.{some, Text, List, [], ◌∷◌, All, Result, ok, err, ◌≡◌, refl, sym}
use emovis_micro_service.Platform.{Platform}
use emovis_micro_service.Transaction.Model.{Key, Transaction, IngestOutcome}
use emovis_micro_service.Transaction.Validate.{
  Rules, System, Verdict, accepted, rejected, faulted, accept,
}
use emovis_micro_service.Store.Interface.{StoreApi, IsStore}
use emovis_micro_service.HttpApi.Request.{IngestRequest}
use emovis_micro_service.HttpApi.Mapping.{to_submission}
use emovis_micro_service.HttpApi.Ingest.{
  Push, push, pushes, ingest_transaction, judged, stored_reply,
}
use emovis_micro_service.HttpApi.Ingest.Outcomes.{Answered, ingest_transaction-Answered}
use emovis_micro_service.HttpApi.Ingest.Retry.{
  HasId, IsSuccess, Repeated, body_id, request_key, success-HasId, HasId-kept, stored-Repeated,
}

module _ {S D : Type 0} (platform : Platform D) (api : StoreApi S D) {IsValid : S → Type 0}
    {Fits : Transaction D → Type 0} (store : IsStore platform api IsValid Fits)
    (Allowed : Rules → Type 0)
    (fits : (r : Rules) (sys : System) (body : IngestRequest) (tx : Transaction D)
      → Allowed r
      → accept platform r sys (to_submission body) ≡ accepted tx
      → Fits tx) where
  stored_reply-IsValid :
      (id : Text) (r : Rules) (sys : System) (tx : Transaction D)
      (c : S × Result Text (IngestOutcome D))
      → IsValid c.0
      → IsValid (stored_reply platform id api r sys tx c).0
  unfolding stored_reply
  stored_reply-IsValid id r sys tx (s, ok o) v = v
  stored_reply-IsValid id r sys tx (s, err e) v = v

  judged-IsValid :
      (id : Text) (r : Rules) (sys : System) (s : S) (body : IngestRequest) (verdict : Verdict D)
      → IsValid s
      → ((tx : Transaction D) → verdict ≡ accepted tx → Fits tx)
      → IsValid (judged platform id api r sys s body verdict).0
  unfolding judged
  judged-IsValid id r sys s body (faulted cause) v f = v
  judged-IsValid id r sys s body (rejected problems) v f = v
  judged-IsValid id r sys s body (accepted tx) v f =
      stored_reply-IsValid id r sys tx (api.ingest s tx) (store.keeps s tx v (f tx refl))

  ingest_transaction-IsValid :
      (id : Text) (r : Rules) (sys : System) (s : S) (request : Result Text IngestRequest)
      → Allowed r
      → IsValid s
      → IsValid (ingest_transaction platform id api r sys s request).0
  unfolding ingest_transaction
  ingest_transaction-IsValid id r sys s (err cause) allowed v = v
  ingest_transaction-IsValid id r sys s (ok body) allowed v =
      judged-IsValid id r sys s body (accept platform r sys (to_submission body)) v
        (λ tx. fits r sys body tx allowed)

  pub push-IsValid :
      (s : S) (p : Push) → Allowed p.rules → IsValid s → IsValid (push platform api s p).0
  unfolding push
  push-IsValid s p allowed v =
      ingest_transaction-IsValid p.request_id p.rules p.system s p.request allowed v

  pub push-Answered :
      (s : S) (p : Push)
      → Allowed p.rules
      → IsValid s
      → Answered platform p.request_id api p.rules p.system s p.request (push platform api s p)
  unfolding push
  push-Answered s p allowed v =
      ingest_transaction-Answered platform p.request_id api p.rules p.system store
        (λ body tx. fits p.rules p.system body tx allowed) s p.request v

  pushes-IsValid :
      (s : S) (ps : List Push)
      → All (λ p. Allowed p.rules) ps
      → IsValid s
      → IsValid (pushes platform api s ps)
  unfolding pushes
  pushes-IsValid s [] a v = v
  pushes-IsValid s (p ∷ ps) (allowed, a) v =
      pushes-IsValid (push platform api s p).0 ps a (push-IsValid s p allowed v)

  pushes-HasId :
      (s : S) (ps : List Push) (k : Key) (id : Text)
      → All (λ p. Allowed p.rules) ps
      → IsValid s
      → HasId platform api s k id
      → HasId platform api (pushes platform api s ps) k id
  unfolding pushes
  pushes-HasId s [] k id a v h = h
  pushes-HasId s (p ∷ ps) k id (allowed, a) v h =
      pushes-HasId (push platform api s p).0 ps k id a (push-IsValid s p allowed v) (
        HasId-kept platform api store p.request_id p.rules p.system s p.request
          (push platform api s p) k id (push-Answered s p allowed v) h)

  -- By the replies of the handler: once a push has succeeded, any later push of the same key, whatever else it holds, whatever was
  -- pushed in between and whatever the clock is by then, answers 200 with the same identifier or
  -- fails, and changes no record.
  pub retry-Repeated :
      (p : Push) (body₁ body₂ : IngestRequest) (between : List Push) (q : Push) (s : S) (id : Text)
      → IsValid s
      → Allowed p.rules
      → All (λ p. Allowed p.rules) between
      → Allowed q.rules
      → p.request ≡ ok body₁
      → q.request ≡ ok body₂
      → request_key body₂ ≡ request_key body₁
      → IsSuccess platform api (push platform api s p).1.response
      → body_id (push platform api s p).1.response.body ≡ some id
      → Repeated platform api
          (pushes platform api s (p ∷ between))
          id
          (push platform api (pushes platform api s (p ∷ between)) q)
  unfolding pushes
  retry-Repeated p body₁ body₂ between q s id v ap ab aq e₁ e₂ same success e =
      let first = push platform api s p in
      let later = pushes platform api first.0 between in
      let valid = push-IsValid s p ap v in
      let held =
        success-HasId platform api store p.request_id p.rules p.system s body₁ first id
          (subst (λ x. Answered platform p.request_id api p.rules p.system s x first) e₁
            (push-Answered s p ap v))
          success e in
      let kept = pushes-HasId first.0 between (request_key body₁) id ab valid held in
      let last = push platform api later q in
      stored-Repeated platform api q.request_id q.rules q.system later body₂ last id
        (subst (λ x. Answered platform q.request_id api q.rules q.system later x last) e₂
          (push-Answered later q aq (pushes-IsValid first.0 between ab valid)))
        (subst (λ k. HasId platform api later k id) (sym same) kept)
