-- ===== src/Outbox/Loop/Telemetry.antt =====
-- What the loop of the relay tells its metrics, against the outbox.
use emovis_micro_service.Base.{
  Option-cases, ℕ, ◌+◌, ◌≤◌, ℤ, ◌≡◌, refl, ◌∙◌, arith, Text, lit, text_eq, Bool-cases, List, [],
  ◌∷◌, Option, none, some, if◌then◌else◌, inl, inr,
}
use emovis_micro_service.Metrics
use emovis_micro_service.Metrics.{Metrics, same_values}
use emovis_micro_service.Metrics.Series.{count_at, count-inc}
use emovis_micro_service.Outbox.Event.{Event}
use emovis_micro_service.Outbox.Backoff.{FloatApi, Tuning}
use emovis_micro_service.Outbox.Relay.{Progress, run_once, pending_count}
use emovis_micro_service.Outbox.Relay.Drain.{IsUnique}
use emovis_micro_service.Outbox.Relay.Reported.{how_many, published_in, run_once-Reported}
use emovis_micro_service.Outbox.Loop.{
  Round, report_backlog, oldest_created, oldest_pending, pending_total, Next, stops, at_once,
  after_interval, next_round, continued, run_loop,
}
use emovis_micro_service.Store.Postgres.Database.{EventRow}

-- The calls of `OutboxPublish` in a pass.
unfoldable pub count_results : List Text → Metrics → Metrics
count_results [] m = m
count_results (r ∷ results) m = count_results results (Metrics.outbox_publish r m)

-- The call of `OutboxBacklog`, where there is a sample.
unfoldable pub sampled : Option (ℕ × ℤ) → Metrics → Metrics
sampled none m = m
sampled (some (pending, oldest)) m = Metrics.outbox_backlog pending oldest m

going : Next → Metrics → Metrics → Metrics
going stops m rest = m
going at_once m rest = rest
going after_interval m rest = rest

module _ (float : FloatApi) (opts : Tuning) where
  -- A round: the sample is taken before the pass.
  unfoldable pub round_metrics : Round → List EventRow → Metrics → Metrics
  unfolding count_results sampled
  round_metrics c rows m =
      count_results (run_once float opts c.pass rows).0.results (sampled (report_backlog c rows) m)

  -- `Run` as the metrics see it.
  unfoldable pub loop_metrics : List Round → List EventRow → Metrics → Metrics
  unfolding going round_metrics
  loop_metrics [] rows m = m
  loop_metrics (c ∷ cs) rows m =
      let (s, r) = run_once float opts c.pass rows in
      let m' = round_metrics c rows m in going (next_round c r) m' (loop_metrics cs s.rows m')

-- How often a publication was counted.
abbrev pub published_total : Metrics → ℕ
published_total m = count_at (lit "published" ∷ []) m.outbox_published

published-outbox_publish :
    (r : Text) (m : Metrics)
    → published_total (Metrics.outbox_publish r m)
      ≡ published_total m + (if text_eq r (lit "published") then 1 else 0)
unfolding Metrics.outbox_publish same_values
published-outbox_publish r m = elim (Bool-cases (text_eq r (lit "published"))) [
  | inl e ↦ count-inc (r ∷ []) (lit "published" ∷ []) m.outbox_published ∙ rw e refl
  | inr e ↦ count-inc (r ∷ []) (lit "published" ∷ []) m.outbox_published ∙ rw e refl
]

published-count_results :
    (results : List Text) (m : Metrics)
    → published_total (count_results results m)
      ≡ published_total m + how_many (lit "published") results
unfolding count_results how_many
published-count_results [] m = omega arith
published-count_results (r ∷ results) m =
    let rest = published-count_results results (Metrics.outbox_publish r m) in
    let one = published-outbox_publish r m in omega arith

published-sampled :
    (o : Option (ℕ × ℤ)) (m : Metrics) → published_total (sampled o m) ≡ published_total m
unfolding sampled Metrics.outbox_backlog
published-sampled none m = refl
published-sampled (some (pending, oldest)) m = refl

module _ (float : FloatApi) (opts : Tuning) where
  published-round_metrics :
      (c : Round) (rows : List EventRow) (m : Metrics)
      → published_total (round_metrics float opts c rows m)
        ≡ published_total m + published_in (run_once float opts c.pass rows).0
  unfolding round_metrics
  published-round_metrics c rows m =
      let all =
        published-count_results (run_once float opts c.pass rows).0.results
          (sampled (report_backlog c rows) m) in
      let same = published-sampled (report_backlog c rows) m in omega arith

  -- What a round adds, and the rest.
  going-counted :
      (n : Next) (s : Progress) (rest : List EventRow × List Event) (m' after : Metrics) (p q : ℕ)
      → p + q ≤ pending_count s.rows + published_total m'
      → pending_count s.rows + published_total m' ≤ pending_count rest.0 + published_total after
      → p + q ≤ pending_count (continued n s rest).0 + published_total (going n m' after)
  unfolding continued going
  going-counted stops s rest m' after p q h k = h
  going-counted at_once s (left, taken) m' after p q h k = omega arith
  going-counted after_interval s (left, taken) m' after p q h k = omega arith

  -- Over the whole run of the loop on an outbox of distinct events, whatever fails in its rounds and
  -- wherever it is stopped: no more events leave the backlog than `outbox_publish_total` counts as
  -- published.
  pub loop-counted :
      (cs : List Round) (rows : List EventRow) (m : Metrics)
      → IsUnique rows
      → pending_count rows + published_total m
        ≤ pending_count (run_loop float opts cs rows).0
          + published_total (loop_metrics float opts cs rows m)
  unfolding run_loop loop_metrics
  loop-counted [] rows m u = omega arith
  loop-counted (c ∷ cs) rows m u =
      let after = run_once float opts c.pass rows in
      let m' = round_metrics float opts c rows m in
      let (u', b) = run_once-Reported float opts c.pass rows u in
      let told = published-round_metrics c rows m in
      going-counted (next_round c after.1) after.0 (run_loop float opts cs after.0.rows) m'
        (loop_metrics float opts cs after.0.rows m') (pending_count rows) (published_total m)
        (omega arith) (loop-counted cs after.0.rows m' u')

  pending-count_results :
      (results : List Text) (m : Metrics)
      → (count_results results m).outbox_pending ≡ m.outbox_pending
  unfolding count_results Metrics.outbox_publish
  pending-count_results [] m = refl
  pending-count_results (r ∷ results) m = pending-count_results results (Metrics.outbox_publish r m)

  -- The two queries of the backlog answer.
  abbrev pub IsSampled : Round → Type 0
  IsSampled c = (c.count_fails ≡ none) × (c.oldest_fails ≡ none)

  sampled-gauge :
      (c : Round) (rows : List EventRow) (m : Metrics)
      → (IsSampled c → (sampled (report_backlog c rows) m).outbox_pending ≡ pending_count rows)
        × ((IsSampled c → ⊥)
            → (sampled (report_backlog c rows) m).outbox_pending ≡ m.outbox_pending)
  unfolding sampled report_backlog pending_total oldest_pending Metrics.outbox_backlog
  sampled-gauge c rows m = elim (Option-cases c.count_fails) [
    | inr (cause, a) ↦ (
      (λ h. let e = h.0 in absurd (ground arith)),
      (λ h. simp (a, report_backlog, pending_total) refl),
    )
    | inl a ↦ elim (Option-cases c.oldest_fails) [
      | inr (cause, b) ↦ (
        (λ h. let e = h.1 in absurd (ground arith)),
        (λ h. simp (a, b, report_backlog, pending_total, oldest_pending) refl),
      )
      | inl b ↦ elim (Option-cases (oldest_created rows)) [
        | inl o ↦ (
          (λ h. simp (a, b, o, report_backlog, pending_total, oldest_pending) refl),
          (λ h. absurd (h (a, b))),
        )
        | inr (t, o) ↦ (
          (λ h. simp (a, b, o, report_backlog, pending_total, oldest_pending) refl),
          (λ h. absurd (h (a, b))),
        )
      ]
    ]
  ]

  -- A round in which the two queries of the backlog answer leaves the number of events that waited when
  -- it began in the gauge, whatever the pass does; one in which a query fails leaves the gauge alone.
  pub round_metrics-gauge :
      (c : Round) (rows : List EventRow) (m : Metrics)
      → (IsSampled c → (round_metrics float opts c rows m).outbox_pending ≡ pending_count rows)
        × ((IsSampled c → ⊥)
            → (round_metrics float opts c rows m).outbox_pending ≡ m.outbox_pending)
  unfolding round_metrics
  round_metrics-gauge c rows m =
      let (f, g) = sampled-gauge c rows m in
      let same =
        pending-count_results (run_once float opts c.pass rows).0.results
          (sampled (report_backlog c rows) m) in
      ((λ h. same ∙ f h), (λ h. same ∙ g h))
