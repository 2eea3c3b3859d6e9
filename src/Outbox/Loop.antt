-- ===== src/Outbox/Loop.antt =====
-- internal/outbox/relay.go: the backlog that the relay reports, and its loop.
pub mod Lifetime
pub mod Stops
pub mod Backlog
pub mod Telemetry
use emovis_micro_service.Base.{
  ℕ, zero, suc, Text, lit, Bool, true, false, ltb, leb, if◌then◌else◌, List, [], ◌∷◌, ◌++◌, Option,
  none, some, Result, ok, err, ℤ, pos,
}
use mathlib.Core.Option
use emovis_micro_service.Base.Clock.{Time, sub}
use emovis_micro_service.Outbox.Event.{Event}
use emovis_micro_service.Outbox.Backoff.{FloatApi, Tuning}
use emovis_micro_service.Store.Postgres.Database.{EventRow}
use emovis_micro_service.Outbox.Relay.{Progress, Pass, is_pending, run_once, pending_count}

-- `SELECT min(created_at) …`
earlier : Time → Option Time → Option Time
earlier t none = some t
earlier t (some u) = if leb t.instant u.instant then some t else some u

unfoldable pub oldest_created : List EventRow → Option Time
unfolding earlier
oldest_created [] = none
oldest_created (row ∷ rows) =
    let rest = oldest_created rows in
    if is_pending row then earlier row.event.created_at rest else rest

-- `OldestPending`
unfoldable pub oldest_pending : Time → Option Text → List EventRow → Result Text (ℤ × Bool)
unfolding oldest_created
oldest_pending now failing rows = elim failing [
  | some cause ↦ err (lit "read oldest pending event: " ++ cause)
  | none ↦ elim (oldest_created rows) [
    | none ↦ ok (pos 0, false)
    | some oldest ↦ ok (sub now oldest, true)
  ]
]

-- `PendingCount`
unfoldable pub pending_total : Option Text → List EventRow → Result Text ℕ
pending_total failing rows = elim failing [
  | some cause ↦ err (lit "count pending events: " ++ cause)
  | none ↦ ok (pending_count rows)
]

-- What the relay meets in one round of its loop: whether its context is cancelled in the pass, or in
-- the wait that may follow, and how the two queries of the backlog and the pass itself go.
pub record Round : Type 0 where
  pub now : Time
  pub count_fails : Option Text
  pub oldest_fails : Option Text
  pub pass : Pass
  pub cancelled_in_pass : Bool
  pub cancelled_in_wait : Bool

-- `reportBacklog`: the sample, if both queries succeed.
unfoldable pub report_backlog : Round → List EventRow → Option (ℕ × ℤ)
unfolding oldest_pending pending_total
report_backlog c rows = elim (pending_total c.count_fails rows) [
  | err cause ↦ none
  | ok pending ↦ elim (oldest_pending c.now c.oldest_fails rows) [
    | err cause ↦ none
    | ok (age, there) ↦ some (pending, age)
  ]
]

-- What the loop does after a pass.
pub data Next : Type 0 where
  stops : Next
  at_once : Next
  after_interval : Next

-- The `switch` and the `select` of `Run`. A pass that a cancellation interrupts ends in its error.
unfoldable pub next_round : Round → Result Text ℕ → Next
next_round c (err cause) =
    if c.cancelled_in_pass then stops else if c.cancelled_in_wait then stops else after_interval
next_round c (ok n) =
    if ltb 0 n then at_once else if c.cancelled_in_wait then stops else after_interval

-- A round, and the rest of the loop where it goes on.
unfoldable pub continued : Next → Progress → List EventRow × List Event → List EventRow × List Event
continued stops s rest = (s.rows, s.delivered)
continued at_once s (left, taken) = (left, s.delivered ++ taken)
continued after_interval s (left, taken) = (left, s.delivered ++ taken)

module _ (float : FloatApi) (opts : Tuning) where
  -- `Run` over the rounds to come: the rows that it leaves, and the events that the publisher took.
  unfoldable pub run_loop : List Round → List EventRow → List EventRow × List Event
  unfolding next_round continued
  run_loop [] rows = (rows, [])
  run_loop (c ∷ cs) rows =
      let (s, r) = run_once float opts c.pass rows in
      continued (next_round c r) s (run_loop cs s.rows)

  resumed :
      Next → Progress → Option (List EventRow × List Event) → Option (List EventRow × List Event)
  resumed stops s rest = some (s.rows, s.delivered)
  resumed at_once s rest = Option.map (λ out. (out.0, s.delivered ++ out.1)) rest
  resumed after_interval s rest = Option.map (λ out. (out.0, s.delivered ++ out.1)) rest

  -- `Run` over an unending supply of rounds, with fuel; `none` is a loop that has not ended yet.
  unfoldable pub run_rounds : ℕ → (ℕ → Round) → List EventRow → Option (List EventRow × List Event)
  unfolding next_round resumed
  run_rounds zero rounds rows = none
  run_rounds (suc fuel) rounds rows =
      let (s, r) = run_once float opts (rounds 0).pass rows in
      resumed (next_round (rounds 0) r) s (run_rounds fuel (λ i. rounds (suc i)) s.rows)
