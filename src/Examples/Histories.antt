-- ===== src/Examples/Histories.antt =====
-- A history of the service in which the publisher refuses an event at first, and two relays at once.
use mathlib.Core.List.{Memᴰ}
use mathlib.Core.Path.{subst, sym, ap, ◌∙◌}
use emovis_micro_service.Base.{
  ℕ, ◌==◌, ◌^◌, ◌≤◌, ◌*◌, lit, Bool, true, false, All, length, List, [], ◌∷◌, ◌++◌, Result, ok,
  Text, none, some, ◌≡◌, refl, arith, if◌then◌else◌,
}
use emovis_micro_service.Transaction.Model.{Uuid}
use emovis_micro_service.Outbox.Event.{Event}
use emovis_micro_service.Outbox.Backoff.{Tuning, default_relay_options}
use emovis_micro_service.Outbox.Relay.{Pass, Progress, published, run_once, pending_count}
use emovis_micro_service.Outbox.Relay.Healthy.{IsHealthy}
use emovis_micro_service.Outbox.Relay.Passes.{Ready, taken}
use emovis_micro_service.Outbox.Relay.Alone.{also_locked, Settled}
use emovis_micro_service.Outbox.Relay.Worked.{with_rows}
use emovis_micro_service.Outbox.Relay.Overlap.{beside, holds, both, overlap-Serial}
use emovis_micro_service.Store.Postgres.Database.{EventRow, Tables}
use emovis_micro_service.Store.Postgres.{ingest}
use emovis_micro_service.System.{relayed}
use emovis_micro_service.Store.Postgres.Pairing.{row_ids}
use emovis_micro_service.System.History.{History, began, ingested, passed}
use emovis_micro_service.System.Told.{told-Recorded, drained-Told}
use emovis_micro_service.Examples.World.{
  at_noon, platform, server, calm, toll, float, pass, waiting,
}

abbrev pub one_recorded : Tables Text
one_recorded =
    (ingest platform server (calm 7) (record { transactions = []; outbox_events = [] }) (toll 1)).0

abbrev pub refusing : Pass
refusing = record (pass 9) { publish = λ e. some (lit "no broker") }

abbrev pub refused : Tables Text
refused = relayed platform server float default_relay_options refusing one_recorded

abbrev told : List Event
told = (run_once float default_relay_options refusing one_recorded.outbox_events).0.delivered

history : History platform server float refused told
history =
    passed default_relay_options refusing one_recorded [] (ingested (calm 7) _ [] (toll 1) began)

-- Long after the refusal.
abbrev pub later : Pass
later = pass (2 ^ 50)

pub later-IsHealthy : IsHealthy later
later-IsHealthy = record {
  begin = refl;
  query = refl;
  reading = refl;
  publish = λ e. refl;
  mark = λ e. refl;
  commit = refl;
}

abbrev event_of_toll : Event
event_of_toll = record {
  id = 7;
  kind = lit "transaction.received";
  aggregate_id = 1;
  payload = lit "lane-7";
  created_at = at_noon;
}

abbrev queued_row : EventRow
queued_row = record {
  event = event_of_toll;
  published_at = none;
  attempts = 0;
  last_error = none;
  next_attempt_at = 5;
}

recorded_rows : one_recorded.outbox_events ≡ queued_row ∷ []
unfolding ingest emovis_micro_service.Store.Postgres.ingest_in_tx
    emovis_micro_service.Store.Postgres.Database.insert_transaction
    emovis_micro_service.Store.Postgres.Database.meets_checks
    emovis_micro_service.Store.Postgres.Database.stored_row
    emovis_micro_service.Store.Postgres.row_of lit
    emovis_micro_service.Store.Postgres.Database.find_row
    emovis_micro_service.Store.Postgres.Database.has_id
    emovis_micro_service.Store.Postgres.write_outbox_event
    emovis_micro_service.Outbox.Event.new_transaction_received
    emovis_micro_service.Store.Postgres.Database.insert_outbox_event
    emovis_micro_service.Store.Postgres.Database.has_event
    emovis_micro_service.Outbox.Event.event_type_transaction_received
    emovis_micro_service.Outbox.Event.body_of emovis_micro_service.Base.Clock.to_utc
recorded_rows = refl

abbrev refused_row : EventRow
refused_row = record queued_row {
  attempts = 1;
  last_error = some (lit "no broker");
  next_attempt_at = 1000000009;
}

after_refusal : run_once float default_relay_options refusing (queued_row ∷ []) ≡ (
  record { rows = refused_row ∷ []; aborted = false; delivered = []; results = lit "failed" ∷ [] },
  ok 0,
)
unfolding run_once emovis_micro_service.Outbox.Relay.claim_pending default_relay_options
    emovis_micro_service.Outbox.Relay.failed emovis_micro_service.Outbox.Backoff.backoff_for
after_refusal = refl

refused_rows : refused.outbox_events ≡ refused_row ∷ []
unfolding relayed
refused_rows =
    ap (λ rows. (run_once float default_relay_options refusing rows).0.rows) recorded_rows
    ∙ ap (λ r. r.0.rows) after_refusal

told_nothing : told ≡ []
told_nothing =
    ap (λ rows. (run_once float default_relay_options refusing rows).0.delivered) recorded_rows
    ∙ ap (λ r. r.0.delivered) after_refusal

later_told :
    (run_once float default_relay_options later (refused_row ∷ [])).0.delivered ≡ event_of_toll ∷ []
unfolding run_once emovis_micro_service.Outbox.Relay.claim_pending default_relay_options
later_told = refl

pub later-Ready : Ready refused.outbox_events later
unfolding emovis_micro_service.Outbox.Relay.is_due
later-Ready = rw refused_rows ((λ p. refl), tt)

batch : default_relay_options.batch_size ≡ 100
unfolding default_relay_options
batch = refl

pub one_left :
    pending_count refused.outbox_events ≤ length (later ∷ []) * default_relay_options.batch_size
unfolding pending_count
one_left = rw (refused_rows, batch) (omega arith)

is_recorded : Memᴰ 1 (row_ids refused)
unfolding relayed ingest emovis_micro_service.Store.Postgres.ingest_in_tx
    emovis_micro_service.Store.Postgres.Database.insert_transaction
    emovis_micro_service.Store.Postgres.Database.meets_checks
    emovis_micro_service.Store.Postgres.Database.stored_row
    emovis_micro_service.Store.Postgres.row_of lit
    emovis_micro_service.Store.Postgres.Database.find_row
    emovis_micro_service.Store.Postgres.Database.has_id
    emovis_micro_service.Store.Postgres.write_outbox_event
    emovis_micro_service.Outbox.Event.new_transaction_received
    emovis_micro_service.Store.Postgres.Database.insert_outbox_event
    emovis_micro_service.Store.Postgres.Database.has_event
is_recorded = Memᴰ.head refl

drained-Told_example :
    (e : Event) × Memᴰ e
      (told ++ taken float default_relay_options (later ∷ []) refused.outbox_events)
    × (e.aggregate_id ≡ 1)
drained-Told_example =
    drained-Told platform server float default_relay_options (later ∷ []) refused told 1 history
      (later-IsHealthy, tt) (later-Ready, tt) one_left is_recorded

-- The events of a pass that follows the refused one.
abbrev then_told : List Event
then_told = told ++ (run_once float default_relay_options later refused.outbox_events).0.delivered

is_told : Memᴰ event_of_toll then_told
is_told =
    subst
      (λ d.
        Memᴰ event_of_toll
          (d ++ (run_once float default_relay_options later refused.outbox_events).0.delivered))
      (sym told_nothing)
      (subst
        (λ rows. Memᴰ event_of_toll (run_once float default_relay_options later rows).0.delivered)
        (sym refused_rows) (rw later_told (Memᴰ.head refl)))

told-Recorded_example :
    Memᴰ 1 (row_ids (relayed platform server float default_relay_options later refused))
told-Recorded_example =
    told-Recorded platform server float
      (relayed platform server float default_relay_options later refused) then_told event_of_toll
      (passed default_relay_options later refused told history) is_told

abbrev outbox : List EventRow
outbox = waiting 7 ∷ waiting 8 ∷ []

abbrev one_by_one : Tuning
one_by_one = record default_relay_options { batch_size = 1 }

-- A relay that begins while another holds the first event, and when it does so no more.
abbrev second : Pass
second = pass 9

published_rows :
    (run_once float one_by_one (pass 9) outbox).0.rows ≡ published 9 (waiting 7) ∷ waiting 8 ∷ []
unfolding run_once emovis_micro_service.Outbox.Relay.claim_pending
published_rows = refl

published_beside :
    (run_once float one_by_one (beside float one_by_one (pass 9) outbox second) outbox).0.rows
    ≡ waiting 7 ∷ published 9 (waiting 8) ∷ []
unfolding run_once emovis_micro_service.Outbox.Relay.claim_pending also_locked
    emovis_micro_service.Outbox.Relay.Overlap.claims
    emovis_micro_service.Outbox.Relay.Claims.has_claim
published_beside = refl

first-Settled :
    Settled
      (holds float one_by_one (pass 9) outbox)
      second
      (run_once float one_by_one (pass 9) outbox).0.rows
unfolding emovis_micro_service.Outbox.Relay.Overlap.claims emovis_micro_service.Outbox.Relay.claim
    emovis_micro_service.Outbox.Relay.claim_pending
    emovis_micro_service.Outbox.Relay.Claims.has_claim published
first-Settled =
    rw published_rows ((λ h p. absurd (ground arith)), ((λ h p. absurd (ground arith)), tt))

second-Settled :
    Settled
      (holds float one_by_one (beside float one_by_one (pass 9) outbox second) outbox)
      (pass 9)
      (run_once float one_by_one (beside float one_by_one (pass 9) outbox second) outbox).0.rows
unfolding emovis_micro_service.Outbox.Relay.Overlap.claims emovis_micro_service.Outbox.Relay.claim
    emovis_micro_service.Outbox.Relay.claim_pending
    emovis_micro_service.Outbox.Relay.Claims.has_claim published also_locked
second-Settled =
    rw published_beside ((λ h p. absurd (ground arith)), ((λ h p. absurd (ground arith)), tt))

overlap-Serial_example :
    ((id : Uuid)
      → holds float one_by_one (pass 9) outbox id ≡ true
      → holds float one_by_one (beside float one_by_one (pass 9) outbox second) outbox id ≡ false)
    × (run_once float one_by_one second (run_once float one_by_one (pass 9) outbox).0.rows
        ≡ with_rows
            (both float one_by_one (pass 9) (beside float one_by_one (pass 9) outbox second) outbox)
            (run_once float one_by_one (beside float one_by_one (pass 9) outbox second) outbox))
    × (run_once float one_by_one
          (pass 9)
          (run_once float one_by_one (beside float one_by_one (pass 9) outbox second) outbox).0.rows
        ≡ with_rows
            (both float one_by_one (pass 9) (beside float one_by_one (pass 9) outbox second) outbox)
            (run_once float one_by_one (pass 9) outbox))
overlap-Serial_example =
    overlap-Serial float one_by_one (pass 9) second outbox first-Settled second-Settled
