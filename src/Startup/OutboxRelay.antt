-- ===== src/Startup/OutboxRelay.antt =====
-- cmd/outbox-relay/main.go: the life of the relay process. Its metrics server is net/http's.
pub mod Orderly
use emovis_micro_service.Base.{
  ℕ, ℤ, pos, Text, lit, true, false, if◌then◌else◌, List, [], ◌∷◌, ◌++◌, Option, none, some, Result,
  ok, err, int32, ◌*◌,
}
use mathlib.Core.Option
use emovis_micro_service.Base.Clock.{second}
use emovis_micro_service.Platform.{Platform}
use emovis_micro_service.Config.{Config, Env, Readers, uses_database}
use emovis_micro_service.HttpApi.Reply.{info, error}
use emovis_micro_service.Outbox.Event.{Event}
use emovis_micro_service.Outbox.Backoff.{FloatApi, Tuning, new_relay}
use emovis_micro_service.Outbox.Loop.{Round, pending_total, run_rounds}
use emovis_micro_service.Store.Postgres.Database.{EventRow}
use emovis_micro_service.Startup.{pool_limit}
use emovis_micro_service.Startup.Process.{
  Act, connects, closes, listens, drains, says, Run, PoolReplies, connect, loaded,
}

-- What the process meets: the answers of pgx, the error with which the metrics server stops too soon,
-- if it does, whether the first count fails, and the rounds of the loop.
pub record World : Type 0 where
  pub pool : PoolReplies
  pub metrics_stops : Option Text
  pub count_fails : Option Text
  pub rounds : ℕ → Round

-- The options that `run` gives to `NewRelay`.
unfoldable pub tuning_of : Config → Tuning
tuning_of cfg = new_relay (record {
  batch_size = pos cfg.outbox_batch_size;
  poll_interval = pos cfg.outbox_poll_interval;
  base_backoff = pos 0;
  max_backoff = pos 0;
  max_attempts = pos 0;
})

-- How a process has left the outbox, and what its publisher took.
pub record Outcome : Type 0 where
  pub acts : List Act
  pub result : Result Text (Unit {0})
  pub rows : List EventRow
  pub taken : List Event

backlog_said : Result Text ℕ → List Act
backlog_said (err cause) = []
backlog_said (ok pending) = says info (lit "outbox backlog at startup") ∷ []

stop_said : Option Text → List Act
stop_said none = []
stop_said (some cause) = says error (lit "relay metrics server stopped") ∷ []

-- The acts while the pool is open: the deferred shutdown of the metrics server comes last.
unfoldable pub at_work : Config → World → List EventRow → List Act
unfolding backlog_said stop_said
at_work cfg w rows =
    says info (lit "relay metrics listening")
    ∷ (listens cfg.metrics_addr
        ∷ (stop_said w.metrics_stops
            ++ (backlog_said (pending_total w.count_fails rows)
                ++ (says info (lit "outbox relay started")
                    ∷ (says info (lit "outbox relay stopped") ∷ (drains (5 * second) ∷ []))))))

-- Where the loop is not reached.
abbrev pub no_database : Text
no_database = lit "DATABASE_URL must be set: the outbox relay requires a durable store"

idle : List Act → Text → List EventRow → Outcome
idle acts cause rows = record { acts = acts; result = err cause; rows = rows; taken = [] }

module _ (float : FloatApi) where
  relayed_by : Config → World → List EventRow → List EventRow × List Event → Outcome
  relayed_by cfg w rows (left, taken) = record {
    acts =
        connects (pool_limit (int32 cfg.database_max_conns))
        ∷ (at_work cfg w rows ++ (closes ∷ []));
    result = ok tt;
    rows = left;
    taken = taken;
  }

  -- From the connection on; `none` is a loop that is not done with this fuel.
  unfoldable pub connected :
      ℕ → Config → World → List EventRow → List Act × Option Text → Option Outcome
  unfolding idle relayed_by
  connected fuel cfg w rows (acts, some cause) =
      some (idle acts (lit "connect to database: " ++ cause) rows)
  connected fuel cfg w rows (acts, none) =
      Option.map (relayed_by cfg w rows) (run_rounds float (tuning_of cfg) fuel w.rounds rows)

  unfoldable pub run_loaded : ℕ → World → List EventRow → Result Text Config → Option Outcome
  unfolding connected
  run_loaded fuel w rows (err cause) = some (idle [] cause rows)
  run_loaded fuel w rows (ok cfg) =
      if uses_database cfg
      then connected fuel cfg w rows (connect w.pool (int32 cfg.database_max_conns))
      else some (idle [] no_database rows)

  module _ {D : Type 0} (platform : Platform D) (readers : Readers) where
    -- `run`, on the rows of the outbox
    unfoldable pub run : ℕ → Env → World → List EventRow → Option Outcome
    unfolding loaded run_loaded
    run fuel env w rows = run_loaded fuel w rows (loaded platform readers env)
