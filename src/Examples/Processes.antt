-- ===== src/Examples/Processes.antt =====
-- The two servers from their configuration to their end.
use emovis_micro_service.Startup.Migrate
use emovis_micro_service.Startup.Migrate.{GooseReplies}
use emovis_micro_service.Startup.Main.{Net, Answer, answered}
use emovis_micro_service.Store.Memory.{Store}
use emovis_micro_service.Metrics.{Metrics}
use emovis_micro_service.Base.{
  Text, ◌++◌, ℕ, ◌==◌, lit, text_eq, Bool, true, false, if◌then◌else◌, List, [], ◌∷◌, Option, none,
  some, Result, ok, ◌≡◌, refl, inr,
}
use emovis_micro_service.Config.{Config, Env, Readers, load}
use emovis_micro_service.Outbox.Loop.{Round}
use emovis_micro_service.Outbox.Loop.Stops.{IsCancelled}
use emovis_micro_service.Store.Postgres.Database.{EventRow}
use emovis_micro_service.Startup.Process.{PoolReplies, loaded}
use emovis_micro_service.Startup.Api
use emovis_micro_service.Startup.Api.{Ending, serve_ended, signalled}
use emovis_micro_service.Startup.Api.Orderly.{DrainsFirst, run-Drains}
use emovis_micro_service.Startup.OutboxRelay
use emovis_micro_service.Startup.OutboxRelay.Orderly.{IsOrderly, run-ends}
use emovis_micro_service.Examples.World.{at_noon, platform, pass, float, waiting}

-- Only the database is set.
abbrev env : Env
env = λ key. if text_eq key (lit "DATABASE_URL") then some (lit "postgres://db") else none

abbrev readers : Readers
readers = record { parse_int = λ s. none; parse_duration = λ s. none; duration_text = λ d. [] }

abbrev reached : PoolReplies
reached = record { parse = none; create = none; ping = none }

-- A signal comes, and the requests under way take too long.
abbrev slow : Api.World
slow = record { pool = reached; spec = none; ending = signalled (some (lit "deadline exceeded")) }

abbrev config : Config
config = (load platform readers env).0

loads : loaded platform readers env ≡ ok config
unfolding loaded load emovis_micro_service.Money.Currency.currencies
    emovis_micro_service.Money.Currency.find_code emovis_micro_service.Money.Currency.lookup
    emovis_micro_service.Base.Case.to_lower emovis_micro_service.Base.Case.to_upper
    emovis_micro_service.Base.Space.trim_space emovis_micro_service.Base.text_eq lit
loads = refl

run-Drains_example : DrainsFirst config.shutdown_timeout (Api.run platform readers env slow).0
run-Drains_example =
    run-Drains platform readers env slow config (some (lit "deadline exceeded")) loads
      (inr (refl, refl, refl)) refl refl

abbrev outbox : List EventRow
outbox = waiting 7 ∷ waiting 8 ∷ []

-- One round that publishes, and then the context is cancelled.
abbrev rounds : ℕ → Round
rounds i = record {
  now = at_noon;
  count_fails = none;
  oldest_fails = none;
  pass = record (pass 9) { begin = if i == 0 then none else some (lit "context canceled") };
  cancelled_in_pass = if i == 0 then false else true;
  cancelled_in_wait = false;
}

second_round : IsCancelled (rounds 1)
second_round = record { cause = lit "context canceled"; refused = refl; in_pass = refl }

abbrev busy : OutboxRelay.World
busy = record { pool = reached; metrics_stops = none; count_fails = none; rounds = rounds }

run-ends_example :
    (o : OutboxRelay.Outcome) × (OutboxRelay.run float platform readers 2 env busy outbox ≡ some o)
    × IsOrderly (loaded platform readers env) busy outbox o
run-ends_example = run-ends float 1 busy second_round platform readers env outbox

-- The database cannot be opened.
abbrev goose : GooseReplies
goose = record { open_db = some (lit "no route"); set_dialect = none; runs = λ what. none }

abbrev net : Net
net = record {
  split_host_port = λ addr. some ([], addr);
  join_host_port = λ host port. host ++ port;
}

abbrev client : Text → Answer
client url = answered 200 (lit "200 OK")
