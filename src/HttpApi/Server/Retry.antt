-- ===== src/HttpApi/Server/Retry.antt =====
-- A producer that pushes the same key again, as the client and the store see it, with requests of any
-- kind in between.
use mathlib.Core.Path.{subst}
use emovis_micro_service.Base.{
  Bool, true, false, ℕ, ◌≡◌, ◌⊎◌, inl, inr, sym, ◌∙◌, ap, Text, List, ◌∷◌, All, some, ok,
}
use emovis_micro_service.Platform.{Platform}
use emovis_micro_service.Transaction.Model.{Key, Transaction}
use emovis_micro_service.Transaction.Validate.{Rules, System, accepted, accept}
use emovis_micro_service.Store.Interface.{StoreApi, IsStore}
use emovis_micro_service.Metrics.{Metrics}
use emovis_micro_service.HttpApi.Request.{IngestRequest}
use emovis_micro_service.HttpApi.Reply.{Body, Reply}
use emovis_micro_service.HttpApi.Mapping.{to_submission}
use emovis_micro_service.HttpApi.Ingest.{Push, push, pushes}
use emovis_micro_service.HttpApi.Ingest.Retry.{IsSuccess, Repeated, body_id, request_key}
use emovis_micro_service.HttpApi.Ingest.History.{retry-Repeated}
use emovis_micro_service.HttpApi.Middleware.Passing.{shown}
use emovis_micro_service.HttpApi.Server.{answer, Library, Incoming, sent, exchange, exchanges}
use emovis_micro_service.HttpApi.Server.Traces.{encoded, IsQuiet}
use emovis_micro_service.HttpApi.Server.Admitted.{
  admitted, all_admitted, perhaps, pushed, exchange-pushed, exchanges-pushes, sent-shown,
  success-shown, is_lost, shown_of,
}

module _ {S D : Type 0} (library : Library) (platform : Platform D) (api : StoreApi S D) where
  -- The client is told that the push is done, with this identifier, or gets an error; the records are
  -- what they were.
  abbrev pub ToldAgain : S → Metrics → Incoming → Text → Type 0
  ToldAgain s m c id =
      (((body : Body) × (shown (sent library platform api c (s, m))
            ≡ (200, encoded library (answer body)))
          × (body_id body ≡ some id))
        ⊎ (((shown (sent library platform api c (s, m))).0 ≡ 400)
            ⊎ ((shown (sent library platform api c (s, m))).0 ≡ 500)))
      × ((k : Key) → api.stored (exchange library platform api c (s, m)).0 k ≡ api.stored s k)

  shown_again :
      (seen : ℕ × Text) (lost : Bool) (reply : Reply) (id : Text)
      → seen ≡ shown_of library platform api lost reply
      → ((reply.response.status ≡ 200) × (body_id reply.response.body ≡ some id))
        ⊎ ((reply.response.status ≡ 400) ⊎ (reply.response.status ≡ 500))
      → ((body : Body) × (seen ≡ (200, encoded library (answer body))) × (body_id body ≡ some id))
        ⊎ ((seen.0 ≡ 400) ⊎ (seen.0 ≡ 500))
  shown_again seen true reply id e told = inr (inr (ap (λ x. x.0) e))
  shown_again seen false reply id e (inl (status, named)) = inl (
    reply.response.body,
    e ∙ ap (λ (n : ℕ). (n, encoded library (answer reply.response.body))) status,
    named,
  )
  shown_again seen false reply id e (inr (inl status)) = inr (inl (ap (λ x. x.0) e ∙ status))
  shown_again seen false reply id e (inr (inr status)) = inr (inr (ap (λ x. x.0) e ∙ status))

  Repeated-ToldAgain :
      (s : S) (m : Metrics) (c : Incoming) (p : Push) (id : Text)
      → IsQuiet library
      → admitted c ≡ some p
      → Repeated platform api s id (push platform api s p)
      → ToldAgain s m c id
  Repeated-ToldAgain s m c p id quiet e (told, same) =
      let seen = sent-shown library platform api c p s m quiet e in
      (
        shown_again _ (is_lost library platform api c p (s, m)) (push platform api s p).1 id seen
            told,
        λ k.
            ap (λ s'. api.stored s' k)
              (exchange-pushed library platform api c s m
                ∙ ap (λ o. pushed library platform api o s) e)
            ∙ same k,
      )

  module _ {IsValid : S → Type 0} {Fits : Transaction D → Type 0}
      (store : IsStore platform api IsValid Fits) (Allowed : Rules → Type 0)
      (fits : (r : Rules) (sys : System) (body : IngestRequest) (tx : Transaction D)
        → Allowed r
        → accept platform r sys (to_submission body) ≡ accepted tx
        → Fits tx)
      (quiet : IsQuiet library) where
    -- Over any store that keeps its contract: once the client was sent 200 or 201 for a push, a later
    -- push of the same key that the validator lets through, whatever else it holds, whatever requests of
    -- any kind were served in between and whatever the clock, is sent 200 and a body with the same
    -- identifier, or 400 or 500, and changes no record.
    pub exchanges-retry :
        (c c' : Incoming) (between : List Incoming) (p q : Push) (body₁ body₂ : IngestRequest)
        (s : S) (m : Metrics) (id : Text)
        → IsValid s
        → Allowed p.rules
        → All (λ p. Allowed p.rules) (all_admitted between)
        → Allowed q.rules
        → admitted c ≡ some p
        → admitted c' ≡ some q
        → p.request ≡ ok body₁
        → q.request ≡ ok body₂
        → request_key body₂ ≡ request_key body₁
        → ((shown (sent library platform api c (s, m))).0 ≡ 201)
          ⊎ ((shown (sent library platform api c (s, m))).0 ≡ 200)
        → body_id (push platform api s p).1.response.body ≡ some id
        → ToldAgain
            (exchanges library platform api (c ∷ between) (s, m)).0
            (exchanges library platform api (c ∷ between) (s, m)).1
            c'
            id
    unfolding all_admitted
    exchanges-retry c c' between p q body₁ body₂ s m id v ap₁ ab aq e e' r r' same success named =
        let w = exchanges library platform api (c ∷ between) (s, m) in
        let good : IsSuccess platform api (push platform api s p).1.response =
          success-shown library platform api c p s m quiet e success in
        let reached : pushes platform api s (p ∷ all_admitted between) ≡ w.0 = sym (
          exchanges-pushes library platform api (c ∷ between) s m
          ∙ ap (λ o. pushes platform api s (perhaps o (all_admitted between))) e) in
        Repeated-ToldAgain w.0 w.1 c' q id quiet e' (
          subst (λ s'. Repeated platform api s' id (push platform api s' q)) reached
            (retry-Repeated platform api store Allowed fits p body₁ body₂ (all_admitted between) q s
              id v ap₁ ab aq r r' same good named))
