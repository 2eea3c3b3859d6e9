-- ===== src/Outbox/Relay/Healthy.antt =====
-- A pass in which nothing fails.
use Prim.Native.Nat.{min}
use emovis_micro_service.Base.{
  ℕ, zero, suc, ◌+◌, ◌≡◌, refl, arith, false, if◌then◌else◌, List, [], ◌∷◌, none, ok, ◌∙◌, ap,
  length,
}
use emovis_micro_service.Outbox.Event.{Event}
use emovis_micro_service.Outbox.Backoff.{FloatApi, Tuning}
use emovis_micro_service.Store.Postgres.Database.{EventRow}
use emovis_micro_service.Store.Postgres.{commits}
use emovis_micro_service.Outbox.Relay.{
  Claimed, Pass, is_due, claim_pending, claim, Progress, exec, count_result, marked, publish_one,
  publish_all, counted, ended, finish, worked, run_once,
}

-- The server and the publisher answer.
pub record IsHealthy (c : Pass) : Type 0 where
  pub begin : c.begin ≡ none
  pub query : c.query ≡ none
  pub reading : c.reading ≡ none
  pub publish : (e : Event) → c.publish e ≡ none
  pub mark : (e : Event) → c.mark e ≡ none
  pub commit : c.commit ≡ commits

unfoldable pub due_count : Pass → List EventRow → ℕ
due_count c [] = 0
due_count c (row ∷ rows) = (if is_due c row then 1 else 0) + due_count c rows

length-claim_pending :
    (c : Pass) (n : ℕ) (rows : List EventRow)
    → length (claim_pending c n rows) ≡ min n (due_count c rows)
unfolding claim_pending due_count
length-claim_pending c zero rows = ground arith
length-claim_pending c (suc n) [] = ground arith
length-claim_pending c (suc n) (r ∷ rows) =
    ground (arith, length-claim_pending c n rows, length-claim_pending c (suc n) rows)

module _ (float : FloatApi) (opts : Tuning) (c : Pass) (healthy : IsHealthy c) where
  publish_one-healthy :
      (e : Claimed) (s : Progress)
      → s.aborted ≡ false
      → ((publish_one float opts c e s).0.aborted ≡ false)
        × ((publish_one float opts c e s).1 ≡ none)
  unfolding publish_one exec marked count_result
  publish_one-healthy e s a =
      simp (healthy.publish e.event, a, healthy.mark e.event, publish_one) (refl, refl)

  publish_all-healthy :
      (es : List Claimed) (s : Progress) (n : ℕ)
      → s.aborted ≡ false
      → ((publish_all float opts c es (s, n)).0.aborted ≡ false)
        × ((publish_all float opts c es (s, n)).1 ≡ n + length es)
  unfolding publish_all
  publish_all-healthy [] s n a = (a, omega arith)
  publish_all-healthy (e ∷ es) s n a =
      let (a', none_failed) = publish_one-healthy e s a in
      let (b, t) =
        publish_all-healthy es (publish_one float opts c e s).0
          (n + counted float opts c (publish_one float opts c e s).1) a' in
      (b, ground (arith, t, none_failed))

  worked-healthy :
      (rows : List EventRow) (es : List Claimed)
      → (worked float opts c rows (ok es)).1 ≡ ok (length es)
  unfolding worked finish ended
  worked-healthy rows [] = refl
  worked-healthy rows (e ∷ es) =
      let (a, t) =
        publish_all-healthy (e ∷ es)
          (record { rows = rows; aborted = false; delivered = []; results = [] }) 0 refl in
      simp (a, t, healthy.commit, worked) (ap ok (omega arith))

  -- A pass in which neither the server nor the publisher fails publishes all events that are due, or
  -- as many as its batch holds.
  pub run_once-healthy :
      (rows : List EventRow)
      → (run_once float opts c rows).1 ≡ ok (min opts.batch_size (due_count c rows))
  unfolding run_once claim
  run_once-healthy rows =
      simp (healthy.begin, healthy.query, healthy.reading, run_once, claim)
        (worked-healthy rows (claim_pending c opts.batch_size rows)
          ∙ ap ok (length-claim_pending c opts.batch_size rows))
