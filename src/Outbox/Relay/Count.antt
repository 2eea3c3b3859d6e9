-- ===== src/Outbox/Relay/Count.antt =====
-- The count that a pass of the relay returns.
use mathlib.Core.Path.{subst}
use emovis_micro_service.Base.{
  ℕ, ◌+◌, ◌≡◌, ◌⊎◌, inl, inr, refl, arith, Text, true, false, List, [], ◌∷◌, ok, Bool-cases,
  Option-cases, sym,
}
use emovis_micro_service.Transaction.Model.{Uuid}
use emovis_micro_service.Outbox.Backoff.{FloatApi, Tuning}
use emovis_micro_service.Store.Postgres.Database.{EventRow}
use emovis_micro_service.Store.Postgres.{Commit, commits, fails, answer_lost}
use emovis_micro_service.Outbox.Relay.{
  Claimed, Pass, claim_pending, claim, update, published, failed, Progress, exec, count_result,
  wrapped, record_failure, marked, publish_one, publish_all, counted, ended, finish, worked,
  run_once, pending_count,
}
use emovis_micro_service.Outbox.Relay.Drain.{
  IsUnique, has_pending, KeepsId, IsUnique-update, pending_count-failed, pending_count-published,
}
use emovis_micro_service.Outbox.Relay.Claims.{
  has_claim, Waiting, Waiting-update, claim_pending-Waiting,
}

-- What one event does to the rows and to the count.
record Handled (id : Uuid) (rows rows' : List EventRow) (n : ℕ) : Type 0 where
  change : EventRow → EventRow
  keeps : KeepsId change
  now : (rows' ≡ rows) ⊎ (rows' ≡ update change id rows)
  total : IsUnique rows → has_pending id rows ≡ true → pending_count rows' + n ≡ pending_count rows

Handled-none : (id : Uuid) (rows : List EventRow) → Handled id rows rows 0
Handled-none id rows = record {
  change = λ r. r;
  keeps = λ r. refl;
  now = inl refl;
  total = λ u p. omega arith;
}

Handled-failed :
    (now b : ℕ) (cause : Text) (id : Uuid) (rows : List EventRow)
    → Handled id rows (update (failed now cause b) id rows) 0
Handled-failed now b cause id rows = record {
  change = failed now cause b;
  keeps = unfold failed in (λ r. refl);
  now = inr refl;
  total = λ u p. omega (arith, pending_count-failed now b cause id rows);
}

Handled-published :
    (now : ℕ) (id : Uuid) (rows : List EventRow)
    → Handled id rows (update (published now) id rows) 1
Handled-published now id rows = record {
  change = published now;
  keeps = unfold published in (λ r. refl);
  now = inr refl;
  total = pending_count-published now id rows;
}

Handled-IsUnique :
    (id : Uuid) (rows rows' : List EventRow) (n : ℕ)
    → Handled id rows rows' n
    → IsUnique rows
    → IsUnique rows'
Handled-IsUnique id rows rows' n h u = elim h.now [
  | inl e ↦ subst IsUnique (sym e) u
  | inr e ↦ subst IsUnique (sym e) (IsUnique-update h.change id rows h.keeps u)
]

Handled-Waiting :
    (id : Uuid) (rows rows' : List EventRow) (n : ℕ) (es : List Claimed)
    → Handled id rows rows' n
    → has_claim id es ≡ false
    → Waiting es rows
    → Waiting es rows'
Handled-Waiting id rows rows' n es h other w = elim h.now [
  | inl e ↦ subst (Waiting es) (sym e) w
  | inr e ↦ subst (Waiting es) (sym e) (Waiting-update h.change id es rows h.keeps other w)
]

module _ (float : FloatApi) (opts : Tuning) (c : Pass) where
  record_failure-Handled :
      (e : Claimed) (cause : Text) (s : Progress)
      → Handled e.event.id s.rows
          (record_failure float opts c e cause s).0.rows
          (counted float opts c (record_failure float opts c e cause s).1)
  unfolding record_failure exec count_result wrapped
  record_failure-Handled e cause s = elim (Bool-cases s.aborted) [
    | inl a ↦ simp (a, record_failure) (Handled-none e.event.id s.rows)
    | inr a ↦ elim (Option-cases (c.mark e.event)) [
      | inr (m, bad) ↦ simp (a, bad, record_failure) (Handled-none e.event.id s.rows)
      | inl good ↦ simp (a, good, record_failure) (Handled-failed c.now _ cause e.event.id s.rows)
    ]
  ]

  publish_one-Handled :
      (e : Claimed) (s : Progress)
      → Handled e.event.id s.rows
          (publish_one float opts c e s).0.rows
          (counted float opts c (publish_one float opts c e s).1)
  unfolding publish_one marked exec count_result
  publish_one-Handled e s = elim (Option-cases (c.publish e.event)) [
    | inr (cause, p) ↦ simp (p, publish_one) (record_failure-Handled e cause s)
    | inl p ↦ elim (Bool-cases s.aborted) [
      | inl a ↦ simp (p, a, publish_one) (Handled-none e.event.id s.rows)
      | inr a ↦ elim (Option-cases (c.mark e.event)) [
        | inr (m, bad) ↦ simp (p, a, bad, publish_one) (Handled-none e.event.id s.rows)
        | inl good ↦ simp (p, a, good, publish_one) (Handled-published c.now e.event.id s.rows)
      ]
    ]
  ]

  pub publish_all-count :
      (es : List Claimed) (s : Progress) (n : ℕ)
      → IsUnique s.rows
      → Waiting es s.rows
      → (IsUnique (publish_all float opts c es (s, n)).0.rows)
        × (pending_count (publish_all float opts c es (s, n)).0.rows
              + (publish_all float opts c es (s, n)).1
            ≡ pending_count s.rows + n)
  unfolding publish_all
  publish_all-count [] s n u w = (u, refl)
  publish_all-count (e ∷ es) s n u (p, q, w) =
      let h = publish_one-Handled e s in
      let after = publish_one float opts c e s in
      let m = counted float opts c after.1 in
      let (u', t) =
        publish_all-count es after.0 (n + m) (Handled-IsUnique e.event.id s.rows after.0.rows m h u)
          (Handled-Waiting e.event.id s.rows after.0.rows m es h q w) in
      (u', omega (arith, t, h.total u p))

  ended-count :
      (before : List EventRow) (how : Commit) (p : Progress × ℕ) (s : Progress) (n : ℕ)
      → ended float opts c before how p ≡ (s, ok n)
      → p ≡ (s, n)
  unfolding ended
  ended-count before commits (s', n') s n h = ground arith
  ended-count before (fails cause) (s', n') s n h = absurd (ground arith)
  ended-count before (answer_lost cause) (s', n') s n h = absurd (ground arith)

  finish-count :
      (before : List EventRow) (p : Progress × ℕ) (s : Progress) (n : ℕ)
      → finish float opts c before p ≡ (s, ok n)
      → p ≡ (s, n)
  unfolding finish
  finish-count before (s', n') s n h = elim (Bool-cases s'.aborted) [
    | inl a ↦ absurd (ground arith)
    | inr a ↦ ended-count before c.commit (s', n') s n (simp a at h)
  ]

  worked-count :
      (rows : List EventRow) (es : List Claimed) (s : Progress) (n : ℕ)
      → IsUnique rows
      → Waiting es rows
      → worked float opts c rows (ok es) ≡ (s, ok n)
      → IsUnique s.rows × (pending_count s.rows + n ≡ pending_count rows)
  unfolding worked
  worked-count rows [] s n u w h = (ground arith, ground arith)
  worked-count rows (e ∷ es) s n u w h =
      let done =
        finish-count rows
          (publish_all float opts c (e ∷ es)
            (record { rows = rows; aborted = false; delivered = []; results = [] }, 0))
          s n h in
      let (u', t) =
        publish_all-count (e ∷ es)
          (record { rows = rows; aborted = false; delivered = []; results = [] }) 0 u w in
      (subst (λ p. IsUnique p.0.rows) done u', ground (arith, done))

  -- A pass over an outbox of distinct events that reports n published events has published exactly
  -- n of those that were pending, and the events stay distinct.
  pub run_once-count :
      (rows : List EventRow) (s : Progress) (n : ℕ)
      → IsUnique rows
      → run_once float opts c rows ≡ (s, ok n)
      → IsUnique s.rows × (pending_count s.rows + n ≡ pending_count rows)
  unfolding run_once claim
  run_once-count rows s n u h = elim (Option-cases c.begin) [
    | inr (cause, bad) ↦ absurd (ground arith)
    | inl begun ↦ elim (Option-cases c.query) [
      | inr (cause, bad) ↦ absurd (ground arith)
      | inl asked ↦ elim (Option-cases c.reading) [
        | inr (cause, bad) ↦ absurd (ground arith)
        | inl scanned ↦
            worked-count rows (claim_pending c opts.batch_size rows) s n u
              (claim_pending-Waiting c opts.batch_size rows u)
              (simp (begun, asked, scanned, run_once, claim) at h)
      ]
    ]
  ]
