-- ===== src/Startup/Api/Orderly.antt =====
-- How the API process ends, and what it has done by then.
use mathlib.Core.List.{append-nil, append_assoc}
use mathlib.Core.Path.{sym, ap, ◌∙◌}
use emovis_micro_service.Base.{
  ℕ, ℤ, Text, lit, true, false, List, [], ◌∷◌, ◌++◌, Option, none, some, Result, ok, err, ◌≡◌, ◌⊎◌,
  inl, inr, refl, arith, all, Bool-cases, int32,
}
use emovis_micro_service.Platform.{Platform}
use emovis_micro_service.Config.{Config, Env, Readers, uses_database}
use emovis_micro_service.HttpApi.Reply.{info, warn}
use emovis_micro_service.Startup.{pool_limit, OpenStore, opens_memory, opens_postgres, open_store}
use emovis_micro_service.Startup.Process.Pool.{
  leaves_pool, Brackets, Brackets-pool, stays_open, stays-append, IsReachable, connect-cases,
}
use emovis_micro_service.Startup.Process.{
  Act, connects, closes, listens, drains, says, PoolReplies, loaded,
}
use emovis_micro_service.Startup.Api.{
  info, Ending, serve_ended, signalled, World, closes_of, opened, serve, drained, with_store,
  with_opened, run_loaded, run,
}

-- The store can be opened.
abbrev pub IsOpenable : Config → PoolReplies → Type 0
IsOpenable cfg p = (uses_database cfg ≡ false) ⊎ IsReachable p

serve-leaves_pool : (cfg : Config) (e : Ending) → all leaves_pool (serve cfg e).0 ≡ true
unfolding serve
serve-leaves_pool cfg (serve_ended none) = refl
serve-leaves_pool cfg (serve_ended (some cause)) = refl
serve-leaves_pool cfg (signalled none) = refl
serve-leaves_pool cfg (signalled (some cause)) = refl

with_store-leaves_pool : (cfg : Config) (w : World) → all leaves_pool (with_store cfg w).0 ≡ true
unfolding with_store
with_store-leaves_pool cfg w = ground (arith, serve-leaves_pool cfg w.ending)

opened-cases :
    (cfg : Config) (p : PoolReplies)
    → ((cause : Text) × ((opened cfg p).1 ≡ err cause)
        × Brackets (opened cfg p).0
        × (IsOpenable cfg p → ⊥))
      ⊎ ((opened cfg p ≡ ([], ok opens_memory)) × IsOpenable cfg p
          ⊎ ((n : ℤ) × (limit : Option ℤ) × (opened cfg p
                ≡ (connects limit ∷ [], ok (opens_postgres n)))
              × IsOpenable cfg p))
unfolding opened open_store
opened-cases cfg p = elim (Bool-cases (uses_database cfg)) [
  | inr u ↦ inr (inl (simp (u, opened, open_store) refl, inl u))
  | inl u ↦ elim (connect-cases p (int32 cfg.database_max_conns)) [
    | inl (cause, f, b, bad) ↦ inl (
      lit "connect to database: " ++ cause,
      simp (u, f, opened, open_store) refl,
      simp (u, opened) b,
      λ o. elim o [ inl v ↦ absurd (ground arith) | inr r ↦ bad r ],
    )
    | inr (c, r) ↦ inr (
        inr (
          int32 cfg.database_max_conns,
          pool_limit (int32 cfg.database_max_conns),
          simp (u, c, opened, open_store) refl,
          inr r,
        ))
  ]
]

with_opened-failed :
    (cfg : Config) (w : World) (o : List Act × Result Text OpenStore) (cause : Text)
    → o.1 ≡ err cause
    → with_opened cfg w o ≡ (o.0, err cause)
unfolding with_opened
with_opened-failed cfg w (acts, err c) cause h = ground arith
with_opened-failed cfg w (acts, ok store) cause h = absurd (ground arith)

run_loaded-Brackets : (w : World) (l : Result Text Config) → Brackets (run_loaded w l).0
unfolding run_loaded with_opened closes_of
run_loaded-Brackets w (err cause) = inl refl
run_loaded-Brackets w (ok cfg) = elim (opened-cases cfg w.pool) [
  | inl (cause, f, b, bad) ↦ rw (with_opened-failed cfg w (opened cfg w.pool) cause f) b
  | inr (inl (o, h)) ↦ rw (o, append-nil) (inl (with_store-leaves_pool cfg w))
  | inr (inr (n, limit, o, h)) ↦
      rw o (Brackets-pool limit (with_store cfg w).0 (with_store-leaves_pool cfg w))
]

-- Serving ends as it should: the server returns without an error, or it shuts down without one.
abbrev pub IsClean : Ending → Type 0
IsClean (serve_ended r) = r ≡ none
IsClean (signalled r) = r ≡ none

-- The result where a store was opened.
abbrev pub Finishes : Result Text Config → World → Type 0
Finishes l w =
    (cfg : Config) × (l ≡ ok cfg) × IsOpenable cfg w.pool × (w.spec ≡ none) × IsClean w.ending

-- The draining among some acts, and none that closes the pool before it.
abbrev pub DrainsFirst : ℕ → List Act → Type 0
DrainsFirst budget acts =
    (before : List Act) × (after : List Act) × (acts ≡ before ++ (drains budget ∷ after))
    × (all stays_open before ≡ true)

DrainsFirst-more :
    (budget : ℕ) (first acts rest : List Act)
    → all stays_open first ≡ true
    → DrainsFirst budget acts
    → DrainsFirst budget (first ++ (acts ++ rest))
DrainsFirst-more budget first acts rest h (before, after, e, k) = (
  first ++ before,
  after ++ rest,
  ap (λ a. first ++ (a ++ rest)) e
      ∙ ap (λ a. first ++ a) (append_assoc before (drains budget ∷ after) rest)
      ∙ sym (append_assoc first before (drains budget ∷ (after ++ rest))),
  stays-append first before h k,
)

serve-Drains :
    (cfg : Config) (r : Option Text) → DrainsFirst cfg.shutdown_timeout (serve cfg (signalled r)).0
unfolding serve
serve-Drains cfg r =
    (says info (lit "shutdown signal received, draining") ∷ [], (drained r).0, refl, refl)

with_store-Drains :
    (cfg : Config) (w : World) (r : Option Text)
    → w.spec ≡ none
    → w.ending ≡ signalled r
    → DrainsFirst cfg.shutdown_timeout (with_store cfg w).0
unfolding with_store serve
with_store-Drains cfg w r s q = elim (Bool-cases (uses_database cfg)) [
  | inl u ↦ (
    says info (lit "ingest policy loaded") ∷ ready,
    (drained r).0,
    simp (s, q, u, with_store) refl,
    refl,
  )
  | inr u ↦ (
    says info (lit "ingest policy loaded")
        ∷ (says warn (
              lit
                "running without a database: accepted transactions are held in memory and lost on restart")
            ∷ ready),
    (drained r).0,
    simp (s, q, u, with_store) refl,
    refl,
  )
]
  where
    ready : List Act
    ready =
        says info (lit "http server listening")
        ∷ (listens cfg.http_addr ∷ (says info (lit "shutdown signal received, draining") ∷ []))

module _ {D : Type 0} (platform : Platform D) (readers : Readers) where
  -- Whatever the process meets, it opens no pool, or it opens one first and closes it last.
  pub run-Brackets : (env : Env) (w : World) → Brackets (run platform readers env w).0
  unfolding run
  run-Brackets env w = run_loaded-Brackets w (loaded platform readers env)

  -- A process that serves and meets a signal drains its requests, and it does so before it closes
  -- the pool that it has opened, if any, also where the draining fails.
  pub run-Drains :
      (env : Env) (w : World) (cfg : Config) (r : Option Text)
      → loaded platform readers env ≡ ok cfg
      → IsOpenable cfg w.pool
      → w.spec ≡ none
      → w.ending ≡ signalled r
      → DrainsFirst cfg.shutdown_timeout (run platform readers env w).0
  unfolding run run_loaded with_opened
  run-Drains env w cfg r e o s q =
      let served = with_store-Drains cfg w r s q in
      rw e (elim (opened-cases cfg w.pool) [
        | inl (cause, f, b, bad) ↦ absurd (bad o)
        | inr (inl (m, h)) ↦
            rw m (DrainsFirst-more cfg.shutdown_timeout [] (with_store cfg w).0 [] refl served)
        | inr (inr (n, limit, m, h)) ↦ rw m (
            DrainsFirst-more cfg.shutdown_timeout (connects limit ∷ []) (with_store cfg w).0
              (closes ∷ []) refl served)
      ])
