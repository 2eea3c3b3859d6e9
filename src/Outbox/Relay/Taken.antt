-- ===== src/Outbox/Relay/Taken.antt =====
-- What the publisher is given.

use emovis_micro_service.Base.{
  ℕ, zero, suc, ◌+◌, ◌≡◌, arith, false, List, [], ◌∷◌, ◌++◌, ok, All, All-append, ◌⊎◌, Bool-cases,
  Option-cases, inl, inr,
}
use emovis_micro_service.Outbox.Event.{Event}
use emovis_micro_service.Outbox.Backoff.{FloatApi, Tuning}
use emovis_micro_service.Store.Postgres.Database.{EventRow}
use emovis_micro_service.Outbox.Relay.{
  Claimed, Pass, is_due, claim_pending, claim, Progress, exec, wrapped, count_result,
  record_failure, marked, publish_one, publish_all, counted, ended, finish, worked, run_once,
}

module _ (P : Event → Type 0) where
  claim_pending-All :
      (c : Pass) (n : ℕ) (rows : List EventRow)
      → All (λ r. P r.event) rows
      → All (λ e. P e.event) (claim_pending c n rows)
  unfolding claim_pending
  claim_pending-All c zero rows h = tt
  claim_pending-All c (suc n) [] h = tt
  claim_pending-All c (suc n) (r ∷ rows) (p, h) = elim (Bool-cases (is_due c r)) [
    | inl due ↦ rw (due, claim_pending) (p, claim_pending-All c n rows h)
    | inr later ↦ rw (later, claim_pending) (claim_pending-All c (suc n) rows h)
  ]

  exec-delivered :
      (c : Pass) (e : Event) (f : EventRow → EventRow) (s : Progress)
      → (exec c e f s).0.delivered ≡ s.delivered
  unfolding exec
  exec-delivered c e f s = ground arith

  module _ (float : FloatApi) (opts : Tuning) (c : Pass) where
    publish_one-delivered :
        (e : Claimed) (s : Progress)
        → ((publish_one float opts c e s).0.delivered ≡ s.delivered)
          ⊎ ((publish_one float opts c e s).0.delivered ≡ s.delivered ++ (e.event ∷ []))
    unfolding publish_one exec marked record_failure wrapped count_result
    publish_one-delivered e s = ground arith

    publish_one-All :
        (e : Claimed) (s : Progress)
        → P e.event
        → All P s.delivered
        → All P (publish_one float opts c e s).0.delivered
    publish_one-All e s p h = elim (publish_one-delivered e s) [
      | inl same ↦ rw same h
      | inr more ↦ rw more (All-append P s.delivered (e.event ∷ []) h (p, tt))
    ]

    publish_all-All :
        (es : List Claimed) (s : Progress) (n : ℕ)
        → All (λ e. P e.event) es
        → All P s.delivered
        → All P (publish_all float opts c es (s, n)).0.delivered
    unfolding publish_all
    publish_all-All [] s n ps h = h
    publish_all-All (e ∷ es) s n (p, ps) h =
        publish_all-All es (publish_one float opts c e s).0
          (n + counted float opts c (publish_one float opts c e s).1) ps (publish_one-All e s p h)

    finish-delivered :
        (before : List EventRow) (p : Progress × ℕ)
        → (finish float opts c before p).0.delivered ≡ p.0.delivered
    unfolding finish ended
    finish-delivered before (s, n) = ground arith

    worked-All :
        (rows : List EventRow) (es : List Claimed)
        → All (λ e. P e.event) es
        → All P (worked float opts c rows (ok es)).0.delivered
    unfolding worked
    worked-All rows [] h = tt
    worked-All rows (e ∷ es) h = rw finish-delivered (
        publish_all-All (e ∷ es)
          (record { rows = rows; aborted = false; delivered = []; results = [] }) 0 h tt)

    -- What the publisher takes in a pass is among what the outbox holds.
    pub run_once-All :
        (rows : List EventRow)
        → All (λ r. P r.event) rows
        → All P (run_once float opts c rows).0.delivered
    unfolding run_once claim
    run_once-All rows h = elim (Option-cases c.begin) [
      | inr (cause, b) ↦ simp (b, run_once) tt
      | inl b ↦ elim (Option-cases c.query) [
        | inr (cause, q) ↦ simp (b, q, run_once, claim) tt
        | inl q ↦ elim (Option-cases c.reading) [
          | inr (cause, z) ↦ simp (b, q, z, run_once, claim) tt
          | inl z ↦
              simp (b, q, z, run_once, claim)
                (worked-All rows (claim_pending c opts.batch_size rows)
                  (claim_pending-All c opts.batch_size rows h))
        ]
      ]
    ]
