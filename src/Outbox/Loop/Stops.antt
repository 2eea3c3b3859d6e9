-- ===== src/Outbox/Loop/Stops.antt =====
-- When the loop ends.
use mathlib.Core.Path.{subst}
use emovis_micro_service.Base.{
  ℕ, zero, suc, ◌≡◌, refl, sym, arith, Text, true, List, [], ◌∷◌, Option, none, some,
}
use emovis_micro_service.Outbox.Event.{Event}
use emovis_micro_service.Outbox.Backoff.{FloatApi, Tuning}
use emovis_micro_service.Store.Postgres.Database.{EventRow}
use emovis_micro_service.Outbox.Relay.{Progress, run_once}
use emovis_micro_service.Outbox.Relay.Rows.{Follows}
use emovis_micro_service.Outbox.Loop.{
  Round, Next, stops, at_once, after_interval, next_round, continued, run_loop, run_rounds, resumed,
}
use emovis_micro_service.Outbox.Loop.Lifetime.{run_loop-Follows}

-- What pgx and a cancelled context do: the database transaction does not begin.
pub record IsCancelled (c : Round) : Type 0 where
  pub cause : Text
  pub refused : c.pass.begin ≡ some cause
  pub in_pass : c.cancelled_in_pass ≡ true

module _ (float : FloatApi) (opts : Tuning) where
  abbrev upto : ℕ → (ℕ → Round) → List Round
  upto zero rounds = []
  upto (suc n) rounds = rounds 0 ∷ upto n (λ i. rounds (suc i))

  resumed-continued :
      (n : Next) (s : Progress) (rest : Option (List EventRow × List Event))
      (r out : List EventRow × List Event)
      → ((o : List EventRow × List Event) → rest ≡ some o → o ≡ r)
      → resumed float opts n s rest ≡ some out
      → out ≡ continued n s r
  unfolding resumed continued
  resumed-continued stops s rest r out f h = ground arith
  resumed-continued at_once s none r out f h = absurd (ground arith)
  resumed-continued at_once s (some o) r out f h = let e = f o refl in ground arith
  resumed-continued after_interval s none r out f h = absurd (ground arith)
  resumed-continued after_interval s (some o) r out f h = let e = f o refl in ground arith

  resumed-total :
      (n : Next) (s : Progress) (o : List EventRow × List Event)
      → (out : List EventRow × List Event) × (resumed float opts n s (some o) ≡ some out)
  unfolding resumed
  resumed-total stops s o = (_, refl)
  resumed-total at_once s o = (_, refl)
  resumed-total after_interval s o = (_, refl)

  -- A loop that has ended has made the rounds of its list.
  run_rounds-run_loop :
      (fuel : ℕ) (rounds : ℕ → Round) (rows : List EventRow) (out : List EventRow × List Event)
      → run_rounds float opts fuel rounds rows ≡ some out
      → out ≡ run_loop float opts (upto fuel rounds) rows
  unfolding run_rounds run_loop
  run_rounds-run_loop zero rounds rows out h = absurd (ground arith)
  run_rounds-run_loop (suc fuel) rounds rows out h =
      resumed-continued (next_round (rounds 0) (run_once float opts (rounds 0).pass rows).1)
        (run_once float opts (rounds 0).pass rows).0
        (run_rounds float opts fuel (λ i. rounds (suc i))
          (run_once float opts (rounds 0).pass rows).0.rows)
        _ out
        (run_rounds-run_loop fuel (λ i. rounds (suc i))
          (run_once float opts (rounds 0).pass rows).0.rows)
        h

  cancelled-stops :
      (c : Round) (rows : List EventRow)
      → IsCancelled c
      → next_round c (run_once float opts c.pass rows).1 ≡ stops
  unfolding next_round run_once
  cancelled-stops c rows h = simp (h.refused, h.in_pass, run_once, next_round) refl

  run_rounds-total :
      (k : ℕ) (rounds : ℕ → Round) (rows : List EventRow)
      → IsCancelled (rounds k)
      → (out : List EventRow × List Event) × (run_rounds float opts (suc k) rounds rows ≡ some out)
  unfolding run_rounds resumed
  run_rounds-total zero rounds rows h = rw (cancelled-stops (rounds 0) rows h) (_, refl)
  run_rounds-total (suc k) rounds rows h =
      let after = run_once float opts (rounds 0).pass rows in
      let (o, e) = run_rounds-total k (λ i. rounds (suc i)) after.0.rows h in
      rw e (resumed-total (next_round (rounds 0) after.1) after.0 o)

  -- The loop ends at the latest in the first round that meets its context cancelled, whatever the
  -- rounds before it met. By then the outbox has kept its events, no published event has become
  -- unpublished, no attempt is forgotten, and what has become published was taken by the publisher.
  pub run_rounds-ends :
      (k : ℕ) (rounds : ℕ → Round) (rows : List EventRow)
      → IsCancelled (rounds k)
      → (out : List EventRow × List Event) × (run_rounds float opts (suc k) rounds rows ≡ some out)
        × Follows out.1 rows out.0
  run_rounds-ends k rounds rows h =
      let (out, e) = run_rounds-total k rounds rows h in
      (
        out,
        e,
        subst (λ o. Follows o.1 rows o.0) (sym (run_rounds-run_loop (suc k) rounds rows out e))
            (run_loop-Follows float opts (upto (suc k) rounds) rows),
      )
