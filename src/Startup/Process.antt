-- ===== src/Startup/Process.antt =====
-- What the two servers do besides serving, in the order in which they do it, and how they end.
-- Connecting is internal/store/postgres/postgres.go, and ending the `main` functions of cmd.
pub mod Pool
use emovis_micro_service.Base.{
  ℕ, ℤ, Text, lit, List, [], ◌∷◌, ◌++◌, Option, none, some, Result, ok, err,
}
use emovis_micro_service.Platform.{Platform}
use emovis_micro_service.Config.{Config, Env, Readers, load}
use emovis_micro_service.HttpApi.ApiError.{join}
use emovis_micro_service.HttpApi.Reply.{Level}
use emovis_micro_service.Startup.{pool_limit}

-- `connects` stands for the creation of a pool with its limit, `listens` for a server that starts on
-- an address, and `drains` for its shutdown within a time. A goroutine's acts stand where it starts.
pub data Act : Type 0 where
  connects : Option ℤ → Act
  closes : Act
  listens : Text → Act
  drains : ℕ → Act
  says : Level → Text → Act

-- What the acts were and how they ended.
abbrev pub Run : Type 0
Run = List Act × Result Text (Unit {0})

-- What pgx answers: the errors of the steps that fail.
pub record PoolReplies : Type 0 where
  pub parse : Option Text
  pub create : Option Text
  pub ping : Option Text

-- `Connect`: a pool that does not reach its database is closed again.
unfoldable pub connect : PoolReplies → ℤ → List Act × Option Text
connect p max_conns = elim p.parse [
  | some cause ↦ ([], some (lit "parse database url: " ++ cause))
  | none ↦ elim p.create [
    | some cause ↦ ([], some (lit "create connection pool: " ++ cause))
    | none ↦ elim p.ping [
      | some cause ↦
          (connects (pool_limit max_conns) ∷ closes ∷ [], some (lit "ping database: " ++ cause))
      | none ↦ (connects (pool_limit max_conns) ∷ [], none)
    ]
  ]
]

-- `errors.Join` puts a line break between the texts.
loaded_with : Config → List Text → Result Text Config
unfolding join
loaded_with cfg [] = ok cfg
loaded_with cfg (e ∷ errors) = err (lit "load configuration: " ++ join (0x0A ∷ []) (e ∷ errors))

module _ {D : Type 0} (platform : Platform D) (readers : Readers) where
  -- `config.Load` and the test of its error.
  unfoldable pub loaded : Env → Result Text Config
  unfolding loaded_with
  loaded env = let (cfg, errors) = load platform readers env in loaded_with cfg errors

-- `main`: the code that the process exits with, and what it writes to the standard error.
unfoldable pub exit_of : Result Text (Unit {0}) → ℕ × Text
exit_of (ok done) = (0, [])
exit_of (err cause) = (1, lit "fatal: " ++ (cause ++ (0x0A ∷ [])))
