-- ===== src/Startup.antt =====
-- The three commands of cmd: how a process is put together from its configuration.
pub mod Wired
pub mod Process
pub mod Api
pub mod OutboxRelay
pub mod Main
pub mod Migrate
use emovis_micro_service.Base.{
  ℕ, ℤ, pos, is_nonpos, int32, Text, lit, text_eq, is_empty, Bool, true, false, not, ◌||◌,
  if◌then◌else◌, List, [], ◌∷◌, ◌++◌, Option, none, some, Result, ok, err,
}
use emovis_micro_service.Platform.{Platform}
use emovis_micro_service.Money.Currency
use emovis_micro_service.Money.Currency.{Currency}
use emovis_micro_service.Transaction.Types.{new_type_set}
use emovis_micro_service.Transaction.Validate.{Rules}
use emovis_micro_service.Config.{Config, uses_database}

-- The zero value, which the look-up gives for an unknown code.
abbrev no_currency : Currency
no_currency = record { code = []; exponent = pos 0 }

module _ {D : Type 0} (platform : Platform D) where
  -- The rules of `run`.
  unfoldable pub rules_of : Config → Rules
  rules_of cfg = record {
    types = some (new_type_set platform.tables cfg.transaction_types);
    default_currency = elim (Currency.lookup platform.tables cfg.default_currency) [
      | some c ↦ c
      | none ↦ no_currency
    ];
    max_clock_skew = pos cfg.max_clock_skew;
    now = none;
    new_id = none;
  }

-- Which store `openStore` opens, where connecting may fail.
pub data OpenStore : Type 0 where
  opens_memory : OpenStore
  opens_postgres : ℤ → OpenStore

-- The limit that `Connect` sets on the pool.
unfoldable pub pool_limit : ℤ → Option ℤ
pool_limit max_conns = if is_nonpos max_conns then none else some max_conns

unfoldable pub open_store : Config → Option Text → Result Text OpenStore
unfolding uses_database
open_store cfg connecting =
    if uses_database cfg
    then elim connecting [
      | some cause ↦ err (lit "connect to database: " ++ cause)
      | none ↦ ok (opens_postgres (int32 cfg.database_max_conns))
    ]
    else ok opens_memory

-- `localAddress`, where `split` and `join` are `net.SplitHostPort` and `net.JoinHostPort`.
unfoldable pub local_address : (Text → Option (Text × Text)) → (Text → Text → Text) → Text → Text
local_address split join addr = elim (split addr) [
  | none ↦ addr
  | some (host, port) ↦
      join
        (if is_empty host || (text_eq host (lit "0.0.0.0") || text_eq host (lit "::"))
          then lit "127.0.0.1"
          else host)
        port
]

-- What `migrate` does with its arguments.
pub data Migration : Type 0 where
  migrates_up shows_status migrates_down : Migration

unfoldable pub command_of : List Text → Text
command_of [] = lit "up"
command_of (command ∷ args) = command

unfoldable pub migration_of : (Text → Text) → Config → List Text → Result Text Migration
unfolding command_of
migration_of quote cfg args =
    if is_empty cfg.database_url
    then err (lit "DATABASE_URL must be set")
    else let command = command_of args in
      if text_eq command (lit "up")
      then ok migrates_up
      else if text_eq command (lit "status")
      then ok shows_status
      else if text_eq command (lit "down")
      then ok migrates_down
      else err (lit "unknown command " ++ (quote command ++ lit ": want up, status, or down"))
