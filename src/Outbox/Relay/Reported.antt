-- ===== src/Outbox/Relay/Reported.antt =====
-- What a pass tells the metrics of its publications, against the rows that it leaves.
use emovis_micro_service.Base.{
  false, ℕ, ◌+◌, ◌≤◌, ◌≡◌, refl, arith, Text, lit, text_eq, Bool, true, false, Bool-cases,
  Option-cases, inl, inr, List, [], ◌∷◌, ◌++◌, ok, if◌then◌else◌,
}
use emovis_micro_service.Outbox.Backoff.{FloatApi, Tuning, is_parked}
use emovis_micro_service.Store.Postgres.Database.{EventRow}
use emovis_micro_service.Store.Postgres.{Commit, commits, fails, answer_lost}
use emovis_micro_service.Outbox.Relay.{
  Claimed, Pass, Progress, exec, count_result, wrapped, record_failure, marked, publish_one,
  counted, publish_all, claim_pending, claim, ended, finish, worked, run_once, pending_count,
}
use emovis_micro_service.Outbox.Relay.Drain.{IsUnique}
use emovis_micro_service.Outbox.Relay.Claims.{Waiting, claim_pending-Waiting}
use emovis_micro_service.Outbox.Relay.Count.{publish_all-count}

unfoldable pub how_many : Text → List Text → ℕ
how_many r [] = 0
how_many r (x ∷ xs) = (if text_eq x r then 1 else 0) + how_many r xs

how_many-append :
    (r : Text) (xs ys : List Text) → how_many r (xs ++ ys) ≡ how_many r xs + how_many r ys
unfolding how_many
how_many-append r [] ys = omega arith
how_many-append r (x ∷ xs) ys = omega (arith, how_many-append r xs ys)

abbrev pub published_in : Progress → ℕ
published_in s = how_many (lit "published") s.results

one_published : how_many (lit "published") (lit "published" ∷ []) ≡ 1
unfolding how_many text_eq lit
one_published = refl

none_failed : how_many (lit "published") (lit "failed" ∷ []) ≡ 0
unfolding how_many text_eq lit
none_failed = refl

none_parked : how_many (lit "published") (lit "parked" ∷ []) ≡ 0
unfolding how_many text_eq lit
none_parked = refl

-- A refusal is not counted as a publication.
refusal_uncounted :
    (parked : Bool) (xs : List Text)
    → how_many (lit "published") (xs ++ ((if parked then lit "parked" else lit "failed") ∷ []))
      ≡ how_many (lit "published") xs + 0
refusal_uncounted true xs =
    omega (arith, how_many-append (lit "published") xs (lit "parked" ∷ []), none_parked)
refusal_uncounted false xs =
    omega (arith, how_many-append (lit "published") xs (lit "failed" ∷ []), none_failed)

module _ (float : FloatApi) (opts : Tuning) (c : Pass) where
  record_failure-reports :
      (e : Claimed) (cause : Text) (s : Progress)
      → published_in (record_failure float opts c e cause s).0
        ≡ published_in s + counted float opts c (record_failure float opts c e cause s).1
  unfolding record_failure exec count_result wrapped
  record_failure-reports e cause s =
      let b = is_parked opts (e.attempts + 1) in
      elim (Bool-cases s.aborted) [
        | inl a ↦ simp (a, record_failure) (refusal_uncounted b s.results)
        | inr a ↦ elim (Option-cases (c.mark e.event)) [
          | inr (m, bad) ↦ simp (a, bad, record_failure) (refusal_uncounted b s.results)
          | inl good ↦ simp (a, good, record_failure) (refusal_uncounted b s.results)
        ]
      ]

  publish_one-reports :
      (e : Claimed) (s : Progress)
      → published_in (publish_one float opts c e s).0
        ≡ published_in s + counted float opts c (publish_one float opts c e s).1
  unfolding publish_one marked exec count_result
  publish_one-reports e s = elim (Option-cases (c.publish e.event)) [
    | inr (cause, p) ↦ simp (p, publish_one) (record_failure-reports e cause s)
    | inl p ↦ elim (Bool-cases s.aborted) [
      | inl a ↦ simp (p, a, publish_one) (omega arith)
      | inr a ↦ elim (Option-cases (c.mark e.event)) [
        | inr (m, bad) ↦ simp (p, a, bad, publish_one) (omega arith)
        | inl good ↦
            simp (p, a, good, publish_one)
              (omega (
                arith,
                how_many-append (lit "published") s.results (lit "published" ∷ []),
                one_published,
              ))
      ]
    ]
  ]

  publish_all-reports :
      (es : List Claimed) (s : Progress) (n : ℕ)
      → published_in (publish_all float opts c es (s, n)).0 + n
        ≡ published_in s + (publish_all float opts c es (s, n)).1
  unfolding publish_all
  publish_all-reports [] s n = omega arith
  publish_all-reports (e ∷ es) s n =
      let after = publish_one float opts c e s in
      let one = publish_one-reports e s in
      let rest = publish_all-reports es after.0 (n + counted float opts c after.1) in omega arith

  -- The rows that are left, and what was reported of them.
  abbrev pub Reported : List EventRow → Progress → Type 0
  Reported rows s = IsUnique s.rows × (pending_count rows ≤ pending_count s.rows + published_in s)

  ended-Reported :
      (rows : List EventRow) (how : Commit) (s : Progress) (n : ℕ)
      → IsUnique rows
      → Reported rows s
      → Reported rows (ended float opts c rows how (s, n)).0
  unfolding ended
  ended-Reported rows commits s n u h = h
  ended-Reported rows (fails cause) s n u h = (u, omega arith)
  ended-Reported rows (answer_lost cause) s n u h = h

  finish-Reported :
      (rows : List EventRow) (p : Progress × ℕ)
      → IsUnique rows
      → Reported rows p.0
      → Reported rows (finish float opts c rows p).0
  unfolding finish
  finish-Reported rows (s, n) u h = elim (Bool-cases s.aborted) [
    | inl a ↦ simp (a, finish) (u, omega arith)
    | inr a ↦ simp (a, finish) (ended-Reported rows c.commit s n u h)
  ]

  worked-Reported :
      (rows : List EventRow) (es : List Claimed)
      → IsUnique rows
      → Waiting es rows
      → Reported rows (worked float opts c rows (ok es)).0
  unfolding worked how_many
  worked-Reported rows [] u w = (u, omega arith)
  worked-Reported rows (e ∷ es) u w =
      let start : Progress = record {
        rows = rows;
        aborted = false;
        delivered = [];
        results = [];
      } in
      let (u', t) = publish_all-count float opts c (e ∷ es) start 0 u w in
      let r = publish_all-reports (e ∷ es) start 0 in
      finish-Reported rows (publish_all float opts c (e ∷ es) (start, 0)) u (u', omega arith)

  -- Whatever fails in a pass over an outbox of distinct events: the events stay distinct, and no more
  -- of them leave the backlog than the pass counts as published.
  pub run_once-Reported :
      (rows : List EventRow) → IsUnique rows → Reported rows (run_once float opts c rows).0
  unfolding run_once claim worked how_many
  run_once-Reported rows u = elim (Option-cases c.begin) [
    | inr (cause, bad) ↦ simp (bad, run_once) (u, omega arith)
    | inl begun ↦ elim (Option-cases c.query) [
      | inr (cause, bad) ↦ simp (begun, bad, run_once, claim) (u, omega arith)
      | inl asked ↦ elim (Option-cases c.reading) [
        | inr (cause, bad) ↦ simp (begun, asked, bad, run_once, claim) (u, omega arith)
        | inl scanned ↦
            simp (begun, asked, scanned, run_once, claim)
              (worked-Reported rows (claim_pending c opts.batch_size rows) u
                (claim_pending-Waiting c opts.batch_size rows u))
      ]
    ]
  ]
