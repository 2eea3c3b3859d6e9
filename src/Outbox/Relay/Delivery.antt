-- ===== src/Outbox/Relay/Delivery.antt =====
-- What a pass of the relay may do to the outbox, against what the publisher has taken.
use Prim.Native.Nat.{ℕ}
use emovis_micro_service.Base.{
  ◌≡◌, inl, inr, refl, arith, Text, false, List, [], ◌∷◌, ◌++◌, Option, none, some, Result, ok, err,
  Bool-cases, Option-cases,
}
use emovis_micro_service.Transaction.Model.{Uuid}
use emovis_micro_service.Outbox.Event.{Event}
use emovis_micro_service.Outbox.Backoff.{FloatApi, Tuning}
use emovis_micro_service.Store.Postgres.Database.{EventRow}
use emovis_micro_service.Store.Postgres.{Commit, commits, fails, answer_lost}
use emovis_micro_service.Outbox.Relay.{
  ended, Claimed, Pass, claim, published, failed, Progress, exec, count_result, wrapped,
  record_failure, marked, publish_one, publish_all, finish, worked, run_once,
}
use emovis_micro_service.Outbox.Relay.Rows.{
  was_delivered-last, Follows, Follows-refl, Follows-more, Harmless, Follows-update,
}

-- The rows of a pass under way, against those it began with.
abbrev Going : List EventRow → Progress → Type 0
Going before s = Follows s.delivered before s.rows

exec-Going :
    (c : Pass) (before : List EventRow) (e : Event) (f : EventRow → EventRow) (s : Progress)
    → Harmless s.delivered e.id f
    → Going before s
    → Going before (exec c e f s).0
unfolding exec
exec-Going c before e f s h g = elim (Bool-cases s.aborted) [
  | inl a ↦ rw a g
  | inr a ↦ elim (Option-cases (c.mark e)) [
    | inl m ↦ rw (a, m) (Follows-update s.delivered e.id f before s.rows h g)
    | inr (cause, m) ↦ rw (a, m) g
  ]
]

wrapped-same :
    (message : Text) (otherwise : Option Text) (p : Progress × Option Text)
    → (wrapped message otherwise p).0 ≡ p.0
unfolding wrapped
wrapped-same message otherwise (s, none) = refl
wrapped-same message otherwise (s, some cause) = refl

module _ (float : FloatApi) (opts : Tuning) (c : Pass) (before : List EventRow) where
  failed-Harmless :
      (d : List Event) (id : Uuid) (cause : Text) (b : ℕ) → Harmless d id (failed c.now cause b)
  unfolding failed
  failed-Harmless d id cause b r = (refl, omega arith, λ h. h, λ h h'. absurd (ground arith))

  published-Harmless :
      (e : Event) (d : List Event) → Harmless (d ++ (e ∷ [])) e.id (published c.now)
  unfolding published
  published-Harmless e d r = (refl, omega arith, λ h. refl, λ h h'. was_delivered-last e d)

  record_failure-Going :
      (e : Claimed) (cause : Text) (s : Progress)
      → Going before s
      → Going before (record_failure float opts c e cause s).0
  unfolding record_failure count_result
  record_failure-Going e cause s g =
      rw wrapped-same
        (exec-Going c before e.event _ _ (failed-Harmless s.delivered e.event.id cause _) g)

  marked-Going :
      (p : Progress × Option Text) → Going before p.0 → Going before (marked float opts c p).0
  unfolding marked count_result
  marked-Going (s, none) g = g
  marked-Going (s, some cause) g = g

  publish_one-Going :
      (e : Claimed) (s : Progress) → Going before s → Going before (publish_one float opts c e s).0
  unfolding publish_one
  publish_one-Going e s g = elim (Option-cases (c.publish e.event)) [
    | inl p ↦
        rw (p, publish_one)
          (marked-Going _ (
            exec-Going c before e.event _ _ (published-Harmless e.event s.delivered)
              (Follows-more s.delivered (e.event ∷ []) before s.rows g)))
    | inr (cause, p) ↦ rw (p, publish_one) (record_failure-Going e cause s g)
  ]

  publish_all-Going :
      (es : List Claimed) (p : Progress × ℕ)
      → Going before p.0
      → Going before (publish_all float opts c es p).0
  unfolding publish_all
  publish_all-Going [] (s, n) g = g
  publish_all-Going (e ∷ es) (s, n) g =
      publish_all-Going es ((publish_one float opts c e s).0, _) (publish_one-Going e s g)

  ended-Going :
      (how : Commit) (p : Progress × ℕ)
      → Going before p.0
      → Going before (ended float opts c before how p).0
  unfolding ended
  ended-Going commits (s, n) g = g
  ended-Going (fails cause) (s, n) g = Follows-refl s.delivered before
  ended-Going (answer_lost cause) (s, n) g = g

  finish-Going :
      (p : Progress × ℕ) → Going before p.0 → Going before (finish float opts c before p).0
  unfolding finish
  finish-Going (s, n) g = elim (Bool-cases s.aborted) [
    | inl a ↦ simp a (Follows-refl s.delivered before)
    | inr a ↦ simp a (ended-Going c.commit (s, n) g)
  ]

  worked-Going : (r : Result Text (List Claimed)) → Going before (worked float opts c before r).0
  unfolding worked
  worked-Going (err cause) = Follows-refl [] before
  worked-Going (ok []) = Follows-refl [] before
  worked-Going (ok (e ∷ es)) =
      finish-Going (publish_all float opts c (e ∷ es) (fresh, 0))
        (publish_all-Going (e ∷ es) (fresh, 0) (Follows-refl [] before))
    where
      fresh : Progress
      fresh = record { rows = before; aborted = false; delivered = []; results = [] }

  -- Whatever fails in a pass: row by row, the outbox keeps its events, a published event stays
  -- published, no attempt is forgotten, and an event that waited before the pass and that the pass
  -- leaves published was taken by the publisher in this pass.
  pub run_once-Follows :
      Follows
        (run_once float opts c before).0.delivered
        before
        (run_once float opts c before).0.rows
  unfolding run_once
  run_once-Follows = elim (Option-cases c.begin) [
    | inl b ↦ simp (b, run_once) (worked-Going (claim c opts.batch_size before))
    | inr (cause, b) ↦ simp (b, run_once) (Follows-refl [] before)
  ]
