-- ===== src/Outbox/Loop/Lifetime.antt =====
-- What the loop of the relay may do to the outbox over its whole run.
use emovis_micro_service.Base.{arith, List, [], ◌∷◌, ◌++◌, ◌∙◌}
use emovis_micro_service.Outbox.Event.{Event}
use emovis_micro_service.Outbox.Backoff.{FloatApi, Tuning}
use emovis_micro_service.Store.Postgres.Database.{EventRow}
use emovis_micro_service.Outbox.Relay.{Progress, run_once}
use emovis_micro_service.Outbox.Relay.Delivery.{run_once-Follows}
use emovis_micro_service.Outbox.Relay.Rows.{
  was_delivered-append, was_delivered-prepend, Kept, Follows, Follows-refl,
}
use emovis_micro_service.Outbox.Loop.{
  Round, Next, stops, at_once, after_interval, next_round, continued, run_loop,
}

Kept-trans :
    (d d' : List Event) (r r' r'' : EventRow) → Kept d r r' → Kept d' r' r'' → Kept (d ++ d') r r''
Kept-trans d d' r r' r'' k k' =
    let e = k.event in
    let p = k.published in
    let p' = k'.published in
    let q = k.delivered in
    let q' = k'.delivered in
    record {
      event = k'.event ∙ k.event;
      attempts = let a = k.attempts in let a' = k'.attempts in omega arith;
      published = ground arith;
      delivered =
          ground
            (arith, was_delivered-append r.event.id d d', was_delivered-prepend r.event.id d d');
    }

Follows-trans :
    (d d' : List Event) (a b c : List EventRow)
    → Follows d a b
    → Follows d' b c
    → Follows (d ++ d') a c
Follows-trans d d' [] [] [] f g = tt
Follows-trans d d' [] [] (z ∷ c) f g = g
Follows-trans d d' [] (y ∷ b) c f g = absurd f
Follows-trans d d' (x ∷ a) [] c f g = absurd f
Follows-trans d d' (x ∷ a) (y ∷ b) [] f g = g
Follows-trans d d' (x ∷ a) (y ∷ b) (z ∷ c) (k, f) (k', g) =
    (Kept-trans d d' x y z k k', Follows-trans d d' a b c f g)

continued-Follows :
    (n : Next) (s : Progress) (rows : List EventRow) (rest : List EventRow × List Event)
    → Follows s.delivered rows s.rows
    → Follows rest.1 s.rows rest.0
    → Follows (continued n s rest).1 rows (continued n s rest).0
unfolding continued
continued-Follows stops s rows rest f g = f
continued-Follows at_once s rows (left, taken) f g =
    Follows-trans s.delivered taken rows s.rows left f g
continued-Follows after_interval s rows (left, taken) f g =
    Follows-trans s.delivered taken rows s.rows left f g

module _ (float : FloatApi) (opts : Tuning) where
  -- Over the whole run of the loop, whatever fails in its rounds and wherever it is stopped: row by
  -- row the outbox keeps its events, a published event stays published, no attempt is forgotten,
  -- and an event that was pending and is left published was taken by the publisher in the run.
  pub run_loop-Follows :
      (cs : List Round) (rows : List EventRow)
      → Follows (run_loop float opts cs rows).1 rows (run_loop float opts cs rows).0
  unfolding run_loop
  run_loop-Follows [] rows = Follows-refl [] rows
  run_loop-Follows (c ∷ cs) rows =
      let after = run_once float opts c.pass rows in
      continued-Follows (next_round c after.1) after.0 rows (run_loop float opts cs after.0.rows)
        (run_once-Follows float opts c.pass rows) (run_loop-Follows cs after.0.rows)
