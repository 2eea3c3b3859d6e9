-- ===== src/Startup/Migrate/Tidy.antt =====
-- What the migrate process has done when it ends.
use emovis_micro_service.Base.{Text, List, [], ◌∷◌, none, some, Result, ok, err, ◌≡◌}
use emovis_micro_service.Platform.{Platform}
use emovis_micro_service.Config.{Config, Env, Readers}
use emovis_micro_service.Startup.{Migration, migration_of}
use emovis_micro_service.Startup.Process.{loaded}
use emovis_micro_service.Startup.Migrate.{GooseReplies, Deed, opens, runs, closes, printed}

-- The ways in which a migration can end, each with the call that it comes from: the database is not
-- opened; it is opened and closed; the migration is run between the two and fails, or it succeeds and
-- is announced.
pub data Ends (g : GooseReplies) (url : Text) (what : Migration)
    : List Deed × Result Text (Unit {0}) → Type 0 where
  unopened : (cause why : Text) → g.open_db ≡ some why → Ends g url what ([], err cause)
  unstarted :
      (cause why : Text)
      → g.open_db ≡ none
      → g.set_dialect ≡ some why
      → Ends g url what (opens url ∷ closes ∷ [], err cause)
  failing :
      (cause why : Text)
      → g.open_db ≡ none
      → g.set_dialect ≡ none
      → g.runs what ≡ some why
      → Ends g url what (opens url ∷ runs what ∷ closes ∷ [], err cause)
  succeeding :
      g.open_db ≡ none
      → g.set_dialect ≡ none
      → g.runs what ≡ none
      → Ends g url what (opens url ∷ runs what ∷ closes ∷ printed what, ok tt)

module _ {D : Type 0} (platform : Platform D) (readers : Readers) where
  -- The configuration is read and the first argument, or `up` where there is none, is a command.
  abbrev pub Asked : List Text → Env → Config → Migration → Type 0
  Asked args env cfg what =
      (loaded platform readers env ≡ ok cfg)
      × (migration_of platform.formats.quote cfg args ≡ ok what)
