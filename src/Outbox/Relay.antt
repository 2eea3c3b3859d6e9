-- ===== src/Outbox/Relay.antt =====
-- internal/outbox/relay.go: one pass of the relay over the outbox. A pass runs in one database
-- transaction, whose `now()` is the time it began at. What the publisher and the server do in a pass
-- is an argument.
pub mod Rows
pub mod Taken
pub mod Overlay
pub mod Alone
pub mod Worked
pub mod Overlap
pub mod Delivery
pub mod Healthy
pub mod Claims
pub mod Count
pub mod Reported
pub mod Drain
pub mod Passes
use emovis_micro_service.Base.{
  ℕ, zero, suc, ◌+◌, Text, lit, Bool, true, false, ◌&&◌, not, ◌==◌, leb, if◌then◌else◌, List, [],
  ◌∷◌, ◌++◌, map, Option, none, some, Result, ok, err,
}
use emovis_micro_service.Transaction.Model.{Uuid}
use emovis_micro_service.Outbox.Event.{Event}
use emovis_micro_service.Outbox.Backoff.{FloatApi, Tuning, is_parked, retry_delay}
use emovis_micro_service.Store.Postgres.Database.{EventRow}
use emovis_micro_service.Store.Postgres.{Commit, commits, fails, answer_lost}

-- `claimed`
pub record Claimed : Type 0 where
  pub event : Event
  pub attempts : ℕ

-- Why the rows of the query cannot be read.
pub data Unread : Type 0 where
  unscanned interrupted : Text → Unread

unfoldable pub unread_text : Unread → Text
unread_text (unscanned cause) = lit "scan pending event: " ++ cause
unread_text (interrupted cause) = lit "read pending events: " ++ cause

-- What happens in a pass: the errors of the statements, where they fail; what the publisher answers
-- for an event; and the rows that another relay has locked.
pub record Pass : Type 0 where
  pub begin : Option Text
  pub query : Option Text
  pub reading : Option Unread
  pub locked : Uuid → Bool
  pub publish : Event → Option Text
  pub mark : Event → Option Text
  pub commit : Commit
  pub now : ℕ

abbrev pub is_pending : EventRow → Bool
is_pending row = elim row.published_at [ none ↦ true | some at ↦ false ]

-- `WHERE published_at IS NULL AND next_attempt_at <= now()`, less the rows that are skipped
unfoldable pub is_due : Pass → EventRow → Bool
is_due c row = is_pending row && (leb row.next_attempt_at c.now && not (c.locked row.event.id))

-- `claimPending`: `ORDER BY id LIMIT n`
unfoldable pub claim_pending : Pass → ℕ → List EventRow → List Claimed
unfolding is_due
claim_pending c zero rows = []
claim_pending c (suc n) [] = []
claim_pending c (suc n) (row ∷ rows) =
    if is_due c row
    then record { event = row.event; attempts = row.attempts } ∷ claim_pending c n rows
    else claim_pending c (suc n) rows

-- `claim`
unfoldable pub claim : Pass → ℕ → List EventRow → Result Text (List Claimed)
claim c batch_size rows = elim c.query [
  | some cause ↦ err (lit "claim pending events: " ++ cause)
  | none ↦ elim c.reading [
    | some cause ↦ err (unread_text cause)
    | none ↦ ok (claim_pending c batch_size rows)
  ]
]

-- `UPDATE outbox_events SET … WHERE event_id = $1`
unfoldable pub update : (EventRow → EventRow) → Uuid → List EventRow → List EventRow
update f id = map (λ row. if row.event.id == id then f row else row)

-- `markPublished`
unfoldable pub published : ℕ → EventRow → EventRow
published now row = record row {
  published_at = some now;
  attempts = row.attempts + 1;
  last_error = none;
}

-- `markFailed`
unfoldable pub failed : ℕ → Text → ℕ → EventRow → EventRow
failed now cause backoff row = record row {
  attempts = row.attempts + 1;
  last_error = some cause;
  next_attempt_at = now + backoff;
}

-- A pass under way: the rows as the transaction sees them, whether a statement has failed, so that
-- the server refuses all that follow, the events that the publisher has taken, and the values that
-- the metric `OutboxPublish` has counted.
pub record Progress : Type 0 where
  pub rows : List EventRow
  pub aborted : Bool
  pub delivered : List Event
  pub results : List Text

-- `dbTx.Exec`
unfoldable pub exec : Pass → Event → (EventRow → EventRow) → Progress → Progress × Option Text
unfolding update
exec c e f s =
    if s.aborted then (s, some (lit "current transaction is aborted")) else elim (c.mark e) [
      | some cause ↦ (record s { aborted = true }, some cause)
      | none ↦ (record s { rows = update f e.id s.rows }, none)
    ]

-- `metrics.OutboxPublish`
unfoldable pub count_result : Text → Progress → Progress
count_result r s = record s { results = s.results ++ (r ∷ []) }

-- The error of a statement, or what follows it.
wrapped : Text → Option Text → Progress × Option Text → Progress × Option Text
wrapped message otherwise (s, some cause) = (s, some (message ++ cause))
wrapped message otherwise (s, none) = (s, otherwise)

module _ (float : FloatApi) (opts : Tuning) (c : Pass) where
  -- `recordFailure`
  unfoldable pub record_failure : Claimed → Text → Progress → Progress × Option Text
  unfolding exec wrapped count_result retry_delay is_parked
  record_failure e cause s =
      let attempts = e.attempts + 1 in
      wrapped (lit "record publish failure: ") (some cause) (
        exec c e.event (failed c.now cause (retry_delay float opts attempts))
          (count_result (if is_parked opts attempts then lit "parked" else lit "failed") s))

  marked : Progress × Option Text → Progress × Option Text
  unfolding count_result
  marked (s, some cause) = (s, some (lit "mark event published: " ++ cause))
  marked (s, none) = (count_result (lit "published") s, none)

  -- `publishOne`
  unfoldable pub publish_one : Claimed → Progress → Progress × Option Text
  unfolding record_failure exec marked
  publish_one e s = elim (c.publish e.event) [
    | some cause ↦ record_failure e cause s
    | none ↦
        marked (
          exec c e.event (published c.now) (record s { delivered = s.delivered ++ (e.event ∷ []) }))
  ]

  -- The loop over what was claimed, and how many were published.
  abbrev counted : Option Text → ℕ
  counted none = 1
  counted (some cause) = 0

  unfoldable pub publish_all : List Claimed → Progress × ℕ → Progress × ℕ
  unfolding publish_one
  publish_all [] (s, n) = (s, n)
  publish_all (e ∷ es) (s, n) =
      let (s', failure) = publish_one e s in publish_all es (s', n + counted failure)

  ended : List EventRow → Commit → Progress × ℕ → Progress × Result Text ℕ
  ended before commits (s, n) = (s, ok n)
  ended before (fails cause) (s, n) =
      (record s { rows = before }, err (lit "commit outbox transaction: " ++ cause))
  ended before (answer_lost cause) (s, n) = (s, err (lit "commit outbox transaction: " ++ cause))

  -- `dbTx.Commit`: a transaction in which a statement has failed is undone.
  unfoldable pub finish : List EventRow → Progress × ℕ → Progress × Result Text ℕ
  unfolding ended
  finish before (s, n) =
      if s.aborted
      then (
        record s { rows = before },
        err (lit "commit outbox transaction: commit unexpectedly resulted in rollback"),
      )
      else ended before c.commit (s, n)

  abbrev untouched : List EventRow → Result Text ℕ → Progress × Result Text ℕ
  untouched rows r = (record { rows = rows; aborted = false; delivered = []; results = [] }, r)

  pub worked : List EventRow → Result Text (List Claimed) → Progress × Result Text ℕ
  unfolding publish_all finish
  worked rows (err cause) = untouched rows (err cause)
  worked rows (ok []) = untouched rows (ok 0)
  worked rows (ok (e ∷ es)) = finish rows (
      publish_all (e ∷ es)
        (record { rows = rows; aborted = false; delivered = []; results = [] }, 0))

  -- `RunOnce`
  unfoldable pub run_once : List EventRow → Progress × Result Text ℕ
  unfolding worked claim
  run_once rows = elim c.begin [
    | some cause ↦ untouched rows (err (lit "begin outbox transaction: " ++ cause))
    | none ↦ worked rows (claim c opts.batch_size rows)
  ]

-- `PendingCount`
unfoldable pub pending_count : List EventRow → ℕ
pending_count [] = 0
pending_count (row ∷ rows) = (if is_pending row then 1 else 0) + pending_count rows
