-- ===== src/Health/Checker.antt =====
-- internal/platform/health/health.go: the checks of a process. A check is given its timeout and answers
-- with the time it took and its error, if it fails.
pub mod Order
use emovis_micro_service.Base.{ℕ, Text, text_eq, List, [], ◌∷◌, Option}
use emovis_micro_service.Base.Maps.{put}
use emovis_micro_service.Health.{Ended}

abbrev pub Check : Type 0
Check = ℕ → Text × Option Text

-- `Checker`: its map, and the time that a check may take.
pub record Checker : Type 0 where
  pub checks : List (Text × Check)
  pub timeout : ℕ

-- `New`
unfoldable pub new_checker : ℕ → Checker
new_checker timeout = record { checks = []; timeout = timeout }

-- `Register`
unfoldable pub register : Text → Check → Checker → Checker
register name check c = record c { checks = put text_eq name check c.checks }

unfoldable pub ran_all : ℕ → List (Text × Check) → List Ended
ran_all timeout [] = []
ran_all timeout ((name, check) ∷ checks) =
    record { name = name; latency = (check timeout).0; failure = (check timeout).1 }
    ∷ ran_all timeout checks

-- What the goroutines of `Ready` come to, in the order of the map.
unfoldable pub ran : Checker → List Ended
unfolding ran_all
ran c = ran_all c.timeout c.checks

-- `Register`, called for each.
unfoldable pub register_all : List (Text × Check) → Checker → Checker
unfolding register
register_all [] c = c
register_all ((name, check) ∷ more) c = register_all more (register name check c)
