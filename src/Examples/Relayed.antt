-- ===== src/Examples/Relayed.antt =====
-- The relay on an outbox of two events.
use Prim.Native.Nat.{min}
use emovis_micro_service.Base.{
  ℕ, All, length, ◌*◌, ◌-◌, ◌+◌, ◌<◌, ◌≤◌, List, [], ◌∷◌, ok, ◌≡◌, ◌⊎◌, inr, refl, arith, pos,
}
use emovis_micro_service.Outbox.Backoff.{
  RelayOptions, Tuning, default_relay_options, new_relay, backoff_for, retry_delay, parked_backoff,
}
use emovis_micro_service.Outbox.Backoff.Bounds.{
  new_relay-IsTuned, IsFloat, doubled, backoff_for-doubled, retry_delay-bounds,
}
use emovis_micro_service.Outbox.Relay.{Pass, run_once, pending_count}
use emovis_micro_service.Outbox.Relay.Delivery.{run_once-Follows}
use emovis_micro_service.Outbox.Relay.Rows.{Follows}
use emovis_micro_service.Outbox.Relay.Drain.{IsUnique}
use emovis_micro_service.Outbox.Relay.Count.{run_once-count}
use emovis_micro_service.Outbox.Relay.Healthy.{IsHealthy}
use emovis_micro_service.Outbox.Relay.Passes.{Ready, passes, passes-drain}
use emovis_micro_service.Store.Postgres.Database.{EventRow}
use emovis_micro_service.Examples.World.{pass, float, waiting}

abbrev outbox : List EventRow
outbox = waiting 7 ∷ waiting 8 ∷ []

run_once-Follows_example :
    Follows
      (run_once float default_relay_options (pass 9) outbox).0.delivered
      outbox
      (run_once float default_relay_options (pass 9) outbox).0.rows
run_once-Follows_example = run_once-Follows float default_relay_options (pass 9) outbox

outbox-IsUnique : IsUnique outbox
unfolding IsUnique emovis_micro_service.Store.Postgres.Database.has_event
outbox-IsUnique = (refl, (refl, tt))

healthy : (now : ℕ) → IsHealthy (pass now)
healthy now = record {
  begin = refl;
  query = refl;
  reading = refl;
  publish = λ e. refl;
  mark = λ e. refl;
  commit = refl;
}

-- One event at a time.
abbrev one_by_one : Tuning
one_by_one = record default_relay_options { batch_size = 1 }

abbrev two_passes : List Pass
two_passes = pass 9 ∷ pass 10 ∷ []

all_Ready : All (Ready outbox) two_passes
unfolding emovis_micro_service.Outbox.Relay.is_due
all_Ready = (((λ p. refl), ((λ p. refl), tt)), (((λ p. refl), ((λ p. refl), tt)), tt))

passes-drain_example :
    pending_count (passes float one_by_one two_passes outbox)
    ≡ pending_count outbox - length two_passes * one_by_one.batch_size
passes-drain_example =
    passes-drain float one_by_one two_passes outbox outbox-IsUnique (healthy 9, (healthy 10, tt))
      all_Ready

nothing_left : pending_count (passes float one_by_one two_passes outbox) ≡ 0
unfolding pending_count
nothing_left = passes-drain_example

two_published :
    run_once float default_relay_options (pass 9) outbox
    ≡ ((run_once float default_relay_options (pass 9) outbox).0, ok 2)
unfolding default_relay_options emovis_micro_service.Outbox.Relay.claim_pending run_once
two_published = refl

run_once-count_example :
    IsUnique (run_once float default_relay_options (pass 9) outbox).0.rows
    × (pending_count (run_once float default_relay_options (pass 9) outbox).0.rows + 2
        ≡ pending_count outbox)
run_once-count_example =
    run_once-count float default_relay_options (pass 9) outbox
      (run_once float default_relay_options (pass 9) outbox).0 2 outbox-IsUnique two_published

float-IsFloat : IsFloat float
float-IsFloat = record {
  exact = λ b k small fits. ground arith;
  beyond = λ b k small big. inr (ground arith);
}

-- Options that are all left at zero.
abbrev options : RelayOptions
options = record {
  batch_size = pos 0;
  poll_interval = pos 0;
  base_backoff = pos 0;
  max_backoff = pos 0;
  max_attempts = pos 0;
}

abbrev tuning : Tuning
tuning = record {
  batch_size = 100;
  poll_interval = 2000000000;
  base_backoff = 1000000000;
  max_backoff = 300000000000;
  max_attempts = 10;
}

backoff_for-doubled_example :
    backoff_for float tuning 4 ≡ min (doubled tuning.base_backoff 3) tuning.max_backoff
backoff_for-doubled_example =
    backoff_for-doubled float tuning 3 float-IsFloat (omega arith) (omega arith) (omega arith)
      (omega arith)

retry_delay-bounds_example :
    (0 < retry_delay float (new_relay options) 4)
    × (((4 < (new_relay options).max_attempts)
          × (retry_delay float (new_relay options) 4 ≤ (new_relay options).max_backoff))
        ⊎ (((new_relay options).max_attempts ≤ 4)
            × (retry_delay float (new_relay options) 4 ≡ parked_backoff)))
retry_delay-bounds_example =
    retry_delay-bounds float (new_relay options) 4 (new_relay-IsTuned options) (omega arith)
