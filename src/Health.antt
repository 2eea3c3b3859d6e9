-- ===== src/Health.antt =====
-- internal/platform/health/health.go and internal/httpapi/health.go: the readiness report and its
-- answer. The checks run at once; they come here in the order in which they end.
pub mod Ready
pub mod Checker
use emovis_micro_service.Base.{
  ℕ, Text, lit, text_eq, Bool, true, false, if◌then◌else◌, List, [], ◌∷◌, Option, none, some,
}
use emovis_micro_service.Base.Maps.{put}

pub data Status : Type 0 where
  up down : Status

pub record CheckResult : Type 0 where
  pub status : Status
  pub reason : Text
  pub latency : Text
  pub detail : Text

pub record Report : Type 0 where
  pub status : Status
  pub checks : List (Text × CheckResult)

-- A check that has ended: its name, the time it took and its error, if it failed.
pub record Ended : Type 0 where
  pub name : Text
  pub latency : Text
  pub failure : Option Text

unfoldable pub reason_unavailable : Text
reason_unavailable = lit "unavailable"

unfoldable pub result_of : Ended → CheckResult
result_of e = elim e.failure [
  | none ↦ record { status = up; reason = []; latency = e.latency; detail = [] }
  | some cause ↦ record {
    status = down;
    reason = reason_unavailable;
    latency = e.latency;
    detail = cause;
  }
]

-- What a check adds to the report, under the lock.
unfoldable pub add_result : Ended → Report → Report
unfolding result_of
add_result e r = record {
  status = elim e.failure [ none ↦ r.status | some cause ↦ down ];
  checks = put text_eq e.name (result_of e) r.checks;
}

-- `Ready`
unfoldable pub ready : List Ended → Report → Report
unfolding add_result
ready [] r = r
ready (e ∷ ended) r = ready ended (add_result e r)

abbrev pub new_report : Report
new_report = record { status = up; checks = [] }

-- A check as it is sent: its detail is not.
pub record SentCheck : Type 0 where
  pub status : Status
  pub reason : Text
  pub latency : Text

pub record ReadyReply : Type 0 where
  pub code : ℕ
  pub status : Status
  pub checks : List (Text × SentCheck)
  pub logged : List (Text × Text)

unfoldable pub sent_checks : List (Text × CheckResult) → List (Text × SentCheck)
sent_checks [] = []
sent_checks ((name, c) ∷ checks) =
    (name, record { status = c.status; reason = c.reason; latency = c.latency })
    ∷ sent_checks checks

-- The failed checks, with their details.
unfoldable pub failed_checks : List (Text × CheckResult) → List (Text × Text)
failed_checks [] = []
failed_checks ((name, c) ∷ checks) =
    let rest = failed_checks checks in elim c.status [ up ↦ rest | down ↦ (name, c.detail) ∷ rest ]

-- `handleReady`
unfoldable pub handle_ready : Report → ReadyReply
unfolding sent_checks failed_checks
handle_ready report = record {
  code = elim report.status [ up ↦ 200 | down ↦ 503 ];
  status = report.status;
  checks = sent_checks report.checks;
  logged = elim report.status [ up ↦ [] | down ↦ failed_checks report.checks ];
}

-- `handleLive`
unfoldable pub handle_live : ℕ × Status
handle_live = (200, up)
