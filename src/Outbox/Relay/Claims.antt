-- ===== src/Outbox/Relay/Claims.antt =====
-- What a pass claims.
use emovis_micro_service.Base.{
  ℕ, zero, suc, ◌≡◌, inl, inr, arith, Bool, true, false, ◌||◌, ◌==◌, List, [], ◌∷◌, Bool-cases,
}
use emovis_micro_service.Transaction.Model.{Uuid}
use emovis_micro_service.Store.Postgres.Database.{EventRow, has_event}
use emovis_micro_service.Outbox.Relay.{Claimed, Pass, is_due, claim_pending, update}
use emovis_micro_service.Outbox.Relay.Drain.{IsUnique, has_pending, KeepsId, has_pending-other}

unfoldable pub has_claim : Uuid → List Claimed → Bool
has_claim id [] = false
has_claim id (e ∷ es) = e.event.id == id || has_claim id es

-- The claimed events are pending, and no two are one.
abbrev pub Waiting : List Claimed → List EventRow → Type 0
Waiting [] rows = Unit
Waiting (e ∷ es) rows =
    (has_pending e.event.id rows ≡ true) × (has_claim e.event.id es ≡ false) × Waiting es rows

pub Waiting-update :
    (f : EventRow → EventRow) (id : Uuid) (es : List Claimed) (rows : List EventRow)
    → KeepsId f
    → has_claim id es ≡ false
    → Waiting es rows
    → Waiting es (update f id rows)
unfolding has_claim
Waiting-update f id [] rows k h w = tt
Waiting-update f id (e ∷ es) rows k h (p, q, w) = (
  ground (arith, has_pending-other f id e.event.id rows k),
  q,
  Waiting-update f id es rows k (ground arith) w,
)

Waiting-weaken :
    (es : List Claimed) (r : EventRow) (rows : List EventRow)
    → Waiting es rows
    → Waiting es (r ∷ rows)
unfolding has_pending
Waiting-weaken [] r rows w = tt
Waiting-weaken (e ∷ es) r rows (p, q, w) = (ground arith, q, Waiting-weaken es r rows w)

module _ (c : Pass) where
  has_claim-has_event :
      (n : ℕ) (id : Uuid) (rows : List EventRow)
      → has_claim id (claim_pending c n rows) ≡ true
      → has_event id rows ≡ true
  unfolding has_claim claim_pending has_event
  has_claim-has_event zero id rows h = absurd (ground arith)
  has_claim-has_event (suc n) id [] h = absurd (ground arith)
  has_claim-has_event (suc n) id (r ∷ rows) h =
      ground (arith, has_claim-has_event n id rows, has_claim-has_event (suc n) id rows)

  pub claim_pending-Waiting :
      (n : ℕ) (rows : List EventRow) → IsUnique rows → Waiting (claim_pending c n rows) rows
  unfolding claim_pending IsUnique
  claim_pending-Waiting zero rows u = tt
  claim_pending-Waiting (suc n) [] u = tt
  claim_pending-Waiting (suc n) (r ∷ rows) (here, u) = elim (Bool-cases (is_due c r)) [
    | inl due ↦
        rw (due, claim_pending)
          (
            unfold has_pending is_due in ground arith,
            ground (arith, has_claim-has_event n r.event.id rows),
            Waiting-weaken (claim_pending c n rows) r rows (claim_pending-Waiting n rows u),
          )
    | inr later ↦
        rw (later, claim_pending)
          (Waiting-weaken (claim_pending c (suc n) rows) r rows
            (claim_pending-Waiting (suc n) rows u))
  ]
