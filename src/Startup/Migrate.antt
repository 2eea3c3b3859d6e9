-- ===== src/Startup/Migrate.antt =====
-- cmd/migrate/main.go and internal/store/postgres/migrate.go: the process that changes the schema.
-- goose itself is a library: what its calls answer is given.
pub mod Tidy
use emovis_micro_service.Base.{
  ℕ, Text, lit, List, [], ◌∷◌, ◌++◌, Option, none, some, Result, ok, err,
}
use emovis_micro_service.Platform.{Platform}
use emovis_micro_service.Config.{Config, Env, Readers}
use emovis_micro_service.Startup.{Migration, migrates_up, shows_status, migrates_down, migration_of}
use emovis_micro_service.Startup.Process.{loaded}

-- The errors of the calls that fail.
pub record GooseReplies : Type 0 where
  pub open_db : Option Text
  pub set_dialect : Option Text
  pub runs : Migration → Option Text

-- What is done to the database, and what is printed.
pub data Deed : Type 0 where
  opens : Text → Deed
  runs : Migration → Deed
  closes : Deed
  prints : Text → Deed

-- `runGoose`: a migration that fails may have been begun.
unfoldable pub run_goose : GooseReplies → Migration → List Deed × Option Text
run_goose g what = elim g.set_dialect [
  | some cause ↦ ([], some (lit "set migration dialect: " ++ cause))
  | none ↦ elim (g.runs what) [
    | some cause ↦ (runs what ∷ [], some (lit "apply migrations: " ++ cause))
    | none ↦ (runs what ∷ [], none)
  ]
]

-- `Migrate`, `Status` and `Down`: the database is closed whatever goose answers.
unfoldable pub migrate : GooseReplies → Text → Migration → List Deed × Option Text
unfolding run_goose
migrate g url what = elim g.open_db [
  | some cause ↦ ([], some (lit "open database for migration: " ++ cause))
  | none ↦
      let (deeds, failure) = run_goose g what in (opens url ∷ (deeds ++ (closes ∷ [])), failure)
]

-- What `run` prints of a migration that succeeds.
unfoldable pub printed : Migration → List Deed
printed migrates_up = prints (lit "migrations applied") ∷ []
printed shows_status = []
printed migrates_down = prints (lit "rolled back one migration") ∷ []

done : Migration → List Deed × Option Text → List Deed × Result Text (Unit {0})
unfolding printed
done what (deeds, some cause) = (deeds, err cause)
done what (deeds, none) = (deeds ++ printed what, ok tt)

unfoldable pub run_chosen :
    GooseReplies → Config → Result Text Migration → List Deed × Result Text (Unit {0})
unfolding migrate done
run_chosen g cfg (err cause) = ([], err cause)
run_chosen g cfg (ok what) = done what (migrate g cfg.database_url what)

unfoldable pub run_loaded :
    (Text → Text)
    → GooseReplies
    → List Text
    → Result Text Config
    → List Deed × Result Text (Unit {0})
unfolding run_chosen
run_loaded quote g args (err cause) = ([], err cause)
run_loaded quote g args (ok cfg) = run_chosen g cfg (migration_of quote cfg args)

module _ {D : Type 0} (platform : Platform D) (readers : Readers) where
  -- `run`
  unfoldable pub run : GooseReplies → List Text → Env → List Deed × Result Text (Unit {0})
  unfolding loaded run_loaded
  run g args env = run_loaded platform.formats.quote g args (loaded platform readers env)
