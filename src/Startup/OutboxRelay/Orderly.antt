-- ===== src/Startup/OutboxRelay/Orderly.antt =====
-- How the relay process ends, and what it has done by then.
use emovis_micro_service.Base.{
  ℕ, suc, Text, lit, true, List, [], ◌++◌, Option, none, some, Result, ok, err, ◌≡◌, ◌↔◌, inl, inr,
  refl, arith, all, Bool-cases, int32, ap,
}
use emovis_micro_service.Platform.{Platform}
use emovis_micro_service.Config.{Config, Env, Readers, uses_database}
use emovis_micro_service.Outbox.Backoff.{FloatApi}
use emovis_micro_service.Outbox.Loop.{pending_total}
use emovis_micro_service.Outbox.Loop.Stops.{IsCancelled, run_rounds-ends}
use emovis_micro_service.Outbox.Relay.Rows.{Follows, Follows-refl}
use emovis_micro_service.Store.Postgres.Database.{EventRow}
use emovis_micro_service.Startup.{pool_limit}
use emovis_micro_service.Startup.Process.{Act, connect, loaded}
use emovis_micro_service.Startup.Process.Pool.{
  leaves_pool, Brackets, Brackets-pool, all-append, IsReachable, connect-cases,
}
use emovis_micro_service.Startup.OutboxRelay.{
  World, Outcome, tuning_of, backlog_said, stop_said, at_work, no_database, idle, relayed_by,
  connected, run_loaded, run,
}

at_work-leaves_pool :
    (cfg : Config) (w : World) (rows : List EventRow) → all leaves_pool (at_work cfg w rows) ≡ true
unfolding at_work backlog_said stop_said
at_work-leaves_pool cfg w rows = all-append (stop_said w.metrics_stops) _ (silent w.metrics_stops) (
    all-append (backlog_said (pending_total w.count_fails rows)) _
      (quiet (pending_total w.count_fails rows)) refl)
  where
    silent : (o : Option Text) → all leaves_pool (stop_said o) ≡ true
    silent none = refl
    silent (some cause) = refl

    quiet : (r : Result Text ℕ) → all leaves_pool (backlog_said r) ≡ true
    quiet (ok n) = refl
    quiet (err cause) = refl

-- The configuration names a database that can be reached.
abbrev pub CanWork : Result Text Config → World → Type 0
CanWork l w = (cfg : Config) × (l ≡ ok cfg) × (uses_database cfg ≡ true) × IsReachable w.pool

-- What is promised of a process that has ended.
pub record IsOrderly (l : Result Text Config) (w : World) (rows : List EventRow) (o : Outcome)
    : Type 0 where
  pub pool : Brackets o.acts
  pub outbox : Follows o.taken rows o.rows
  pub result : (o.result ≡ ok tt) ↔ CanWork l w

same_config : (c c' : Config) → ◌≡◌ {A = Result Text Config} (ok c) (ok c') → c ≡ c'
same_config c c' e = cc

idle-IsOrderly :
    (l : Result Text Config) (w : World) (rows : List EventRow) (acts : List Act) (cause : Text)
    → Brackets acts
    → (CanWork l w → ⊥)
    → IsOrderly l w rows (idle acts cause rows)
unfolding idle
idle-IsOrderly l w rows acts cause b bad = record {
  pool = b;
  outbox = Follows-refl [] rows;
  result = ((λ h. absurd (ground arith)), (λ h. absurd (bad h)));
}

connected-failed :
    (float : FloatApi) (fuel : ℕ) (cfg : Config) (w : World) (rows : List EventRow)
    (c : List Act × Option Text) (cause : Text)
    → c.1 ≡ some cause
    → connected float fuel cfg w rows c
      ≡ some (idle c.0 (lit "connect to database: " ++ cause) rows)
unfolding connected
connected-failed float fuel cfg w rows (acts, none) cause h = absurd (ground arith)
connected-failed float fuel cfg w rows (acts, some cause') cause h = ground arith

module _ (float : FloatApi) (k : ℕ) (w : World) (cancelled : IsCancelled (w.rounds k)) where
  run_loaded-ends :
      (l : Result Text Config) (rows : List EventRow)
      → (o : Outcome) × (run_loaded float (suc k) w rows l ≡ some o) × IsOrderly l w rows o
  unfolding run_loaded connected relayed_by
  run_loaded-ends (err cause) rows = (
    idle [] cause rows,
    refl,
    idle-IsOrderly (err cause) w rows [] cause (inl refl)
        (λ h. let (cfg, e, _, _) = h in absurd (ground arith)),
  )
  run_loaded-ends (ok cfg) rows = elim (Bool-cases (uses_database cfg)) [
    | inr u ↦ (
      idle [] no_database rows,
      simp (u, run_loaded) refl,
      idle-IsOrderly (ok cfg) w rows [] no_database (inl refl) (λ h.
          let (c, e, v, _) = h in
          let same = ap uses_database (same_config cfg c e) in absurd (ground arith)),
    )
    | inl u ↦ elim (connect-cases w.pool (int32 cfg.database_max_conns)) [
      | inl (cause, f, b, bad) ↦ (
        idle (connect w.pool (int32 cfg.database_max_conns)).0
            (lit "connect to database: " ++ cause) rows,
        rw
            (
              u,
              connected-failed float (suc k) cfg w rows
                  (connect w.pool (int32 cfg.database_max_conns)) cause f,
            )
            refl,
        idle-IsOrderly (ok cfg) w rows _ _ b (λ h. let (c, e, v, r) = h in bad r),
      )
      | inr (c, r) ↦
          let (out, e, follows) = run_rounds-ends float (tuning_of cfg) k w.rounds rows cancelled in
          (
            relayed_by float cfg w rows out,
            rw (u, c, e) refl,
            record {
              pool =
                  Brackets-pool (pool_limit (int32 cfg.database_max_conns)) (at_work cfg w rows)
                    (at_work-leaves_pool cfg w rows);
              outbox = follows;
              result = ((λ h. (cfg, refl, u, r)), (λ h. refl));
            },
          )
    ]
  ]

  module _ {D : Type 0} (platform : Platform D) (readers : Readers) where
    -- A process that is cancelled in a round of its loop, at the latest, ends, whatever its rounds
    -- meet. It has then opened no pool, or has opened one first and closed it last; the outbox has
    -- kept its events, no published event has become unpublished, no attempt is forgotten, and what
    -- has become published was taken by the publisher; and it exits without an error exactly if the
    -- configuration names a database that could be reached.
    pub run-ends :
        (env : Env) (rows : List EventRow)
        → (o : Outcome) × (run float platform readers (suc k) env w rows ≡ some o)
          × IsOrderly (loaded platform readers env) w rows o
    unfolding run
    run-ends env rows = run_loaded-ends (loaded platform readers env) rows
