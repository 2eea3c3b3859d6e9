-- ===== src/Outbox/Relay/Passes.antt =====
-- The passes of a relay one after the other, each of which finds the server and the publisher up.
use Prim.Native.Nat.{min}
use mathlib.Core.Path.{subst}
use emovis_micro_service.Base.{
  ℕ, suc, ◌+◌, ◌-◌, ◌*◌, ◌≡◌, refl, arith, true, false, Text, List, [], ◌∷◌, ◌++◌, Result, ok, err,
  All, ap, length, Bool-cases, inl, inr,
}
use emovis_micro_service.Transaction.Model.{Uuid}
use emovis_micro_service.Outbox.Event.{Event}
use emovis_micro_service.Outbox.Backoff.{FloatApi, Tuning}
use emovis_micro_service.Store.Postgres.Database.{EventRow}
use emovis_micro_service.Store.Postgres.{Commit, commits, fails, answer_lost}
use emovis_micro_service.Outbox.Relay.{
  Claimed, Pass, is_pending, is_due, claim, update, published, Progress, exec, count_result, marked,
  publish_one, publish_all, counted, ended, finish, worked, run_once, pending_count,
}
use emovis_micro_service.Outbox.Relay.Drain.{IsUnique}
use emovis_micro_service.Outbox.Relay.Count.{run_once-count}
use emovis_micro_service.Outbox.Relay.Healthy.{IsHealthy, due_count, run_once-healthy}

-- No event waits for a later attempt or is locked by another relay.
abbrev pub Ready : List EventRow → Pass → Type 0
Ready [] c = Unit
Ready (r ∷ rows) c = (is_pending r ≡ true → is_due c r ≡ true) × Ready rows c

due_count-Ready :
    (c : Pass) (rows : List EventRow) → Ready rows c → due_count c rows ≡ pending_count rows
unfolding due_count pending_count is_due
due_count-Ready c [] h = refl
due_count-Ready c (r ∷ rows) (due, h) = ground (arith, due, due_count-Ready c rows h)

Ready-published :
    (c : Pass) (now : ℕ) (id : Uuid) (rows : List EventRow)
    → Ready rows c
    → Ready (update (published now) id rows) c
unfolding update published
Ready-published c now id [] h = tt
Ready-published c now id (r ∷ rows) (due, h) =
    ((λ p. ground arith), Ready-published c now id rows h)

-- What a full batch takes off.
one_batch : (p p' q b k : ℕ) → p' + min b p ≡ p → q ≡ p' - k * b → q ≡ p - suc k * b
one_batch p p' q b k taken e = omega arith

module _ (float : FloatApi) (opts : Tuning) where
  -- `RunOnce` one time after the other: what is left in the outbox.
  unfoldable pub passes : List Pass → List EventRow → List EventRow
  passes [] rows = rows
  passes (c ∷ cs) rows = passes cs (run_once float opts c rows).0.rows

  -- What the publisher takes in them.
  unfoldable pub taken : List Pass → List EventRow → List Event
  taken [] rows = []
  taken (c ∷ cs) rows =
      (run_once float opts c rows).0.delivered ++ taken cs (run_once float opts c rows).0.rows

  module _ (c : Pass) (healthy : IsHealthy c) (later : Pass) where
    publish_one-Ready :
        (e : Claimed) (s : Progress)
        → Ready s.rows later
        → Ready (publish_one float opts c e s).0.rows later
    unfolding publish_one exec marked count_result
    publish_one-Ready e s h = elim (Bool-cases s.aborted) [
      | inl a ↦ simp (healthy.publish e.event, a, publish_one) h
      | inr a ↦
          simp (healthy.publish e.event, a, healthy.mark e.event, publish_one)
            (Ready-published later c.now e.event.id s.rows h)
    ]

    publish_all-Ready :
        (es : List Claimed) (s : Progress) (n : ℕ)
        → Ready s.rows later
        → Ready (publish_all float opts c es (s, n)).0.rows later
    unfolding publish_all
    publish_all-Ready [] s n h = h
    publish_all-Ready (e ∷ es) s n h =
        publish_all-Ready es (publish_one float opts c e s).0
          (n + counted float opts c (publish_one float opts c e s).1) (publish_one-Ready e s h)

    ended-Ready :
        (before : List EventRow) (how : Commit) (p : Progress × ℕ)
        → Ready before later
        → Ready p.0.rows later
        → Ready (ended float opts c before how p).0.rows later
    unfolding ended
    ended-Ready before commits (s, n) b h = h
    ended-Ready before (fails cause) (s, n) b h = b
    ended-Ready before (answer_lost cause) (s, n) b h = h

    finish-Ready :
        (before : List EventRow) (p : Progress × ℕ)
        → Ready before later
        → Ready p.0.rows later
        → Ready (finish float opts c before p).0.rows later
    unfolding finish
    finish-Ready before (s, n) b h = elim (Bool-cases s.aborted) [
      | inl a ↦ simp a b
      | inr a ↦ simp a (ended-Ready before c.commit (s, n) b h)
    ]

    worked-Ready :
        (rows : List EventRow) (claimed : Result Text (List Claimed))
        → Ready rows later
        → Ready (worked float opts c rows claimed).0.rows later
    unfolding worked
    worked-Ready rows (err cause) h = h
    worked-Ready rows (ok []) h = h
    worked-Ready rows (ok (e ∷ es)) h = finish-Ready rows _ h (
        publish_all-Ready (e ∷ es)
          (record { rows = rows; aborted = false; delivered = []; results = [] }) 0 h)

    run_once-Ready :
        (rows : List EventRow) → Ready rows later → Ready (run_once float opts c rows).0.rows later
    unfolding run_once
    run_once-Ready rows h =
        simp (healthy.begin, run_once) (worked-Ready rows (claim c opts.batch_size rows) h)

  All-Ready :
      (c : Pass) (healthy : IsHealthy c) (rows : List EventRow) (cs : List Pass)
      → All (Ready rows) cs
      → All (Ready (run_once float opts c rows).0.rows) cs
  All-Ready c healthy rows [] a = tt
  All-Ready c healthy rows (later ∷ cs) (h, a) =
      (run_once-Ready c healthy later rows h, All-Ready c healthy rows cs a)

  -- Over an outbox of distinct events that are all due, passes in which nothing fails publish a full
  -- batch each until nothing is pending.
  pub passes-drain :
      (cs : List Pass) (rows : List EventRow)
      → IsUnique rows
      → All IsHealthy cs
      → All (Ready rows) cs
      → pending_count (passes cs rows) ≡ pending_count rows - length cs * opts.batch_size
  unfolding passes
  passes-drain [] rows u healthy ready = omega arith
  passes-drain (c ∷ cs) rows u (up, healthy) (h, ready) =
      let after = run_once float opts c rows in
      let n = min opts.batch_size (due_count c rows) in
      let (u', total) =
        run_once-count float opts c rows after.0 n u
          (ap (λ r. (after.0, r)) (run_once-healthy float opts c up rows)) in
      let rest = passes-drain cs after.0.rows u' healthy (All-Ready c up rows cs ready) in
      let due = due_count-Ready c rows h in
      one_batch (pending_count rows) (pending_count after.0.rows) _ opts.batch_size (length cs)
        (subst (λ d. pending_count after.0.rows + min opts.batch_size d ≡ pending_count rows) due
          total)
        rest
