-- ===== src/Startup/Main.antt =====
-- cmd/transaction-api/main.go and healthcheck.go: the two modes of the API process, and what a
-- container learns from the probe.
pub mod Alive
use emovis_micro_service.Base.{
  ℕ, Text, lit, ◌==◌, if◌then◌else◌, is_empty, Bool, [], ◌∷◌, ◌++◌, Option, none, some, Result, ok,
  err,
}
use emovis_micro_service.Platform.{Platform}
use emovis_micro_service.Config.{Env, Readers}
use emovis_micro_service.Startup.{local_address}
use emovis_micro_service.Startup.Process.{exit_of}
use emovis_micro_service.Startup.Api
use emovis_micro_service.Startup.Api.{World}

-- `net.SplitHostPort` and `net.JoinHostPort`.
pub record Net : Type 0 where
  pub split_host_port : Text → Option (Text × Text)
  pub join_host_port : Text → Text → Text

-- What the HTTP client answers to a request for a URL: an error of its building, an error of the
-- exchange, or the status with its text.
pub data Answer : Type 0 where
  not_built : Text → Answer
  not_sent : Text → Answer
  answered : ℕ → Text → Answer

-- `runHealthcheck`: the URL that it asks for, and its result.
unfoldable pub healthcheck_url : Net → Text → Text
unfolding local_address
healthcheck_url net addr =
    lit "http://" ++ (local_address net.split_host_port net.join_host_port addr ++ lit "/healthz")

unfoldable pub judge : Text → Answer → Result Text (Unit {0})
judge url (not_built cause) = err (lit "build healthcheck request: " ++ cause)
judge url (not_sent cause) = err (lit "healthcheck request to " ++ (url ++ (lit ": " ++ cause)))
judge url (answered code status) =
    if code == 200 then ok tt else err (lit "healthcheck returned " ++ status)

unfoldable pub run_healthcheck : Net → (Text → Answer) → Text → Result Text (Unit {0})
unfolding judge healthcheck_url
run_healthcheck net client addr =
    judge (healthcheck_url net addr) (client (healthcheck_url net addr))

-- `os.Getenv("HTTP_ADDR")`, or the default.
unfoldable pub probe_address : Env → Text
probe_address env = elim (env (lit "HTTP_ADDR")) [
  | none ↦ lit ":8080"
  | some addr ↦ if is_empty addr then lit ":8080" else addr
]

unfoldable pub probe_exit : Result Text (Unit {0}) → ℕ × Text
probe_exit (ok done) = (0, [])
probe_exit (err cause) = (1, lit "unhealthy: " ++ (cause ++ (0x0A ∷ [])))

module _ {D : Type 0} (platform : Platform D) (readers : Readers) where
  -- `main`: the exit code, and what is written to the standard error. The flag chooses the mode.
  unfoldable pub main : Net → (Text → Answer) → Bool → Env → World → ℕ × Text
  unfolding run_healthcheck probe_address probe_exit exit_of
  main net client healthcheck env w =
      if healthcheck
      then probe_exit (run_healthcheck net client (probe_address env))
      else exit_of (Api.run platform readers env w).1
