-- ===== src/HttpApi/Ingest/Outcomes.antt =====
-- What the reply of the handler says of the store, for any store that keeps the contract.
use emovis_micro_service.Base.{
  Text, true, false, some, Result, ok, err, ◌≡◌, ◌⊎◌, inl, inr, refl, arith,
}
use emovis_micro_service.Platform.{Platform}
use emovis_micro_service.Transaction.Model.{key_of, Transaction, IngestOutcome}
use emovis_micro_service.Transaction.Validate.{
  Rules, System, Verdict, accepted, rejected, faulted, accept,
}
use emovis_micro_service.Store.Interface.{StoreApi, IsStore, Recorded, Unchanged, Ingested}
use emovis_micro_service.HttpApi.Request.{IngestRequest}
use emovis_micro_service.HttpApi.Reply.{result}
use emovis_micro_service.HttpApi.Reply.{Reply as HandlerReply}
use emovis_micro_service.HttpApi.Mapping.{to_submission, to_result}
use emovis_micro_service.HttpApi.Ingest.{
  unreadable, not_built, refused, not_recorded, recorded, stored_reply, judged, ingest_transaction,
}
use emovis_micro_service.HttpApi.Reply.{write_error}

module _ {S D : Type 0} (platform : Platform D) (request_id : Text) (api : StoreApi S D) (r : Rules)
    (sys : System) where
  -- The two kinds of success and the failures, each with what it says of the store.
  abbrev pub Answered : S → Result Text IngestRequest → S × HandlerReply → Type 0
  Answered s request out =
      ((body : IngestRequest) × (tx : Transaction D) × (request ≡ ok body)
        × (accept platform r sys (to_submission body) ≡ accepted tx)
        × (((out.1.response.status ≡ 201)
              × (out.1.response.body
                  ≡ result (
                      to_result platform
                        (record { transaction = tx; duplicate = false; divergent = false })))
              × Recorded platform api s tx out.0)
            ⊎ ((old : Transaction D) × (digest : Text) × (out.1.response.status ≡ 200)
                × (out.1.response.body
                    ≡ result (
                        to_result platform
                          (record { transaction = old; duplicate = true; divergent = false })))
                × (api.stored s (key_of tx) ≡ some (old, digest))
                × Unchanged platform api s out.0)
            ⊎ ((out.1.response.status ≡ 500) × Recorded platform api s tx out.0)))
      ⊎ (((out.1.response.status ≡ 400) ⊎ (out.1.response.status ≡ 500))
          × Unchanged platform api s out.0)

  stored_reply-Answered :
      (s : S) (body : IngestRequest) (tx : Transaction D) (c : S × Result Text (IngestOutcome D))
      → accept platform r sys (to_submission body) ≡ accepted tx
      → Ingested platform api s tx c
      → Answered s (ok body) (stored_reply platform request_id api r sys tx c)
  unfolding stored_reply recorded not_recorded write_error to_result
  stored_reply-Answered s body tx (s', err cause) a (inl same) = inr (inr refl, same)
  stored_reply-Answered s body tx (s', err cause) a (inr new) =
      inl (body, tx, refl, a, inr (inr (refl, new)))
  stored_reply-Answered s body tx (s', ok o) a (inl (e, new)) =
      inl (body, tx, refl, a, inl (ground arith, ground arith, new))
  stored_reply-Answered s body tx (s', ok o) a (inr ((digest, known, dup, div), same)) = inl (
    body,
    tx,
    refl,
    a,
    inr (inl (o.transaction, digest, ground arith, ground arith, known, same)),
  )

  judged-Answered :
      (s : S) (body : IngestRequest) (v : Verdict D)
      → accept platform r sys (to_submission body) ≡ v
      → ((tx : Transaction D) → v ≡ accepted tx → Ingested platform api s tx (api.ingest s tx))
      → Answered s (ok body) (judged platform request_id api r sys s body v)
  unfolding judged not_built refused write_error
  judged-Answered s body (faulted cause) a h = inr (inr refl, λ k. refl)
  judged-Answered s body (rejected problems) a h = inr (inl refl, λ k. refl)
  judged-Answered s body (accepted tx) a h =
      stored_reply-Answered s body tx (api.ingest s tx) a (h tx refl)

  -- Where no call of the collectors panics, the reply is what is answered.
  -- 201 says that the transaction is new and now recorded, 200 that one with its key was recorded
  -- before, which is returned. 400 and 500 say that no record has changed, but for a 500 where the
  -- store recorded a new transaction and its answer was lost.
  pub ingest_transaction-Answered :
      {IsValid : S → Type 0} {Fits : Transaction D → Type 0}
      (store : IsStore platform api IsValid Fits)
      (fits : (body : IngestRequest) (tx : Transaction D)
        → accept platform r sys (to_submission body) ≡ accepted tx
        → Fits tx)
      (s : S) (request : Result Text IngestRequest)
      → IsValid s
      → Answered s request (ingest_transaction platform request_id api r sys s request)
  unfolding ingest_transaction unreadable write_error
  ingest_transaction-Answered store fits s (err cause) v = inr (inl refl, λ k. refl)
  ingest_transaction-Answered store fits s (ok body) v =
      judged-Answered s body (accept platform r sys (to_submission body)) refl
        (λ tx e. store.ingested s tx v (fits body tx e))
