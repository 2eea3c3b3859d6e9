-- ===== src/Examples/Looped.antt =====
-- The loop of the relay on an outbox of two events.
use emovis_micro_service.Metrics.{new_metrics}
use emovis_micro_service.Outbox.Relay.Drain.{IsUnique}
use emovis_micro_service.Outbox.Loop.Telemetry.{published_total, loop_metrics, loop-counted}
use emovis_micro_service.Base.{
  ◌+◌, ◌≤◌, Bool, ◌≡◌, ◌⊎◌, refl, true, false, List, [], ◌∷◌, none, ok, pos,
}
use emovis_micro_service.Base.Clock.{Time, sub}
use emovis_micro_service.Outbox.Backoff.{default_relay_options}
use emovis_micro_service.Outbox.Relay.{pending_count}
use emovis_micro_service.Outbox.Loop.{Round, oldest_pending, run_loop}
use emovis_micro_service.Outbox.Loop.Backlog.{Oldest, oldest_pending-Oldest}
use emovis_micro_service.Store.Postgres.Database.{EventRow}
use emovis_micro_service.Examples.World.{at_noon, pass, float, waiting}

abbrev outbox : List EventRow
outbox = waiting 7 ∷ waiting 8 ∷ []

-- A round that publishes, an empty one, and one that is cancelled while it waits.
abbrev rounds : List Round
rounds = round false ∷ round false ∷ round true ∷ []
  where
    round : Bool → Round
    round cancelled = record {
      now = at_noon;
      count_fails = none;
      oldest_fails = none;
      pass = pass 9;
      cancelled_in_pass = false;
      cancelled_in_wait = cancelled;
    }

all_published : pending_count (run_loop float default_relay_options rounds outbox).0 ≡ 0
unfolding run_loop pending_count default_relay_options emovis_micro_service.Outbox.Relay.run_once
    emovis_micro_service.Outbox.Relay.claim_pending emovis_micro_service.Outbox.Relay.published
all_published = refl

oldest_pending-Oldest_example :
    ((oldest_pending at_noon none outbox ≡ ok (pos 0, false)) × (pending_count outbox ≡ 0))
    ⊎ ((t : Time) × (oldest_pending at_noon none outbox ≡ ok (sub at_noon t, true))
        × Oldest t outbox)
oldest_pending-Oldest_example = oldest_pending-Oldest at_noon outbox

outbox-IsUnique : IsUnique outbox
unfolding IsUnique emovis_micro_service.Store.Postgres.Database.has_event
outbox-IsUnique = (refl, (refl, tt))

loop-counted_example :
    pending_count outbox + published_total new_metrics
    ≤ pending_count (run_loop float default_relay_options rounds outbox).0
      + published_total (loop_metrics float default_relay_options rounds outbox new_metrics)
loop-counted_example =
    loop-counted float default_relay_options rounds outbox new_metrics outbox-IsUnique
