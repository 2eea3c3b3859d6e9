-- ===== src/Startup/Api.antt =====
-- cmd/transaction-api/main.go: the life of the API process. The server itself is net/http's.
pub mod Orderly
use emovis_micro_service.Base.{
  Text, lit, if◌then◌else◌, List, [], ◌∷◌, ◌++◌, Option, none, some, Result, ok, err, int32,
}
use emovis_micro_service.Platform.{Platform}
use emovis_micro_service.Config.{Config, Env, Readers, uses_database}
use emovis_micro_service.HttpApi.Reply.{info, warn}
use emovis_micro_service.Startup.{OpenStore, opens_memory, opens_postgres, open_store}
use emovis_micro_service.Startup.Process.{
  Act, closes, listens, drains, says, Run, PoolReplies, connect, loaded,
}

-- How serving ends: `ListenAndServe` returns, with an error that is not `ErrServerClosed` or without
-- one; or a signal comes, and `Shutdown` returns.
pub data Ending : Type 0 where
  serve_ended : Option Text → Ending
  signalled : Option Text → Ending

-- What the process meets.
pub record World : Type 0 where
  pub pool : PoolReplies
  pub spec : Option Text
  pub ending : Ending

closes_of : OpenStore → List Act
closes_of opens_memory = []
closes_of (opens_postgres n) = closes ∷ []

-- The acts of `openStore`, and the store with the closing that is deferred.
unfoldable pub opened : Config → PoolReplies → List Act × Result Text OpenStore
unfolding uses_database open_store
opened cfg p =
    if uses_database cfg
    then (let (acts, failure) = connect p (int32 cfg.database_max_conns) in
        (acts, open_store cfg failure))
    else ([], open_store cfg none)

drained : Option Text → List Act × Result Text (Unit {0})
drained none = (says info (lit "shutdown complete") ∷ [], ok tt)
drained (some cause) = ([], err (lit "graceful shutdown: " ++ cause))

-- The `select` of `run` and what follows it.
unfoldable pub serve : Config → Ending → Run
unfolding drained
serve cfg (serve_ended none) = ([], ok tt)
serve cfg (serve_ended (some cause)) = ([], err (lit "http server: " ++ cause))
serve cfg (signalled r) =
    let (acts, result) = drained r in
    (
      says info (lit "shutdown signal received, draining") ∷ drains cfg.shutdown_timeout ∷ acts,
      result,
    )

-- From the policy that is logged to the end of serving.
unfoldable pub with_store : Config → World → Run
with_store cfg w =
    let warned : List Act =
      if uses_database cfg
      then []
      else says warn (
          lit
            "running without a database: accepted transactions are held in memory and lost on restart")
        ∷ [] in
    let first = says info (lit "ingest policy loaded") ∷ warned in
    elim w.spec [
      | some cause ↦ (first, err (lit "build http router: build router: " ++ cause))
      | none ↦
          let (acts, result) = serve cfg w.ending in
          (
            first ++ (says info (lit "http server listening") ∷ listens cfg.http_addr ∷ acts),
            result,
          )
    ]

-- The deferred call closes the store whatever came before it.
unfoldable pub with_opened : Config → World → List Act × Result Text OpenStore → Run
unfolding with_store closes_of
with_opened cfg w (acts, err cause) = (acts, err cause)
with_opened cfg w (acts, ok store) =
    let (served, result) = with_store cfg w in (acts ++ (served ++ closes_of store), result)

unfoldable pub run_loaded : World → Result Text Config → Run
unfolding with_opened opened
run_loaded w (err cause) = ([], err cause)
run_loaded w (ok cfg) = with_opened cfg w (opened cfg w.pool)

module _ {D : Type 0} (platform : Platform D) (readers : Readers) where
  -- `run`
  unfoldable pub run : Env → World → Run
  unfolding loaded run_loaded
  run env w = run_loaded w (loaded platform readers env)
