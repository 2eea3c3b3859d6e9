-- ===== src/Outbox/Relay/Overlap.antt =====
-- Two relays at once under `FOR UPDATE SKIP LOCKED`, next to the same two one after the other.
use emovis_micro_service.Base.{
  ℕ, zero, suc, ◌≡◌, refl, sym, ◌∙◌, ap, arith, Text, Bool, true, false, ◌==◌, List, [], ◌∷◌, none,
  some, ok, err, All, All-imp, Bool-cases, Option-cases, inl, inr, lit, ◌++◌,
}
use emovis_micro_service.Transaction.Model.{Uuid}
use emovis_micro_service.Outbox.Backoff.{FloatApi, Tuning}
use emovis_micro_service.Store.Postgres.Database.{EventRow}
use emovis_micro_service.Outbox.Relay.{
  Claimed, Pass, is_due, claim_pending, claim, worked, run_once,
}
use emovis_micro_service.Outbox.Relay.Claims.{has_claim}
use emovis_micro_service.Outbox.Relay.Overlay.{
  Agree, Agree-refl, overlay, overlay-Agree, overlay_comm,
}
use emovis_micro_service.Outbox.Relay.Alone.{
  Settled, claim_pending-Settled, also_locked, claim_pending-Agree, claim_pending-also_locked,
  has_claim_self, over,
}
use emovis_micro_service.Outbox.Relay.Worked.{
  with_rows, claimed_in, start, worked-Agree, worked-over, worked-also_locked,
}

module _ (float : FloatApi) (opts : Tuning) where
  -- The rows that a pass holds until it commits: those its query has found.
  unfoldable pub claims : Pass → List EventRow → List Claimed
  unfolding claim
  claims c rows = elim c.begin [
    | some cause ↦ []
    | none ↦ claimed_in (claim c opts.batch_size rows)
  ]

  abbrev pub holds : Pass → List EventRow → Uuid → Bool
  holds c rows id = has_claim id (claims c rows)

  -- What a pass leaves differs from what it found in the rows that it holds alone.
  pub run_once-Agree :
      (c : Pass) (rows : List EventRow)
      → Agree (holds c rows) rows (run_once float opts c rows).0.rows
  unfolding run_once claims
  run_once-Agree c rows = elim (Option-cases c.begin) [
    | inr (cause, b) ↦ simp (b, run_once) (Agree-refl (holds c rows) rows)
    | inl b ↦
        let mine : All (λ e. holds c rows e.event.id ≡ true)
            (claimed_in (claim c opts.batch_size rows)) =
          simp (b, claims) (has_claim_self (claimed_in (claim c opts.batch_size rows))) in
        simp (b, run_once)
          (worked-Agree float opts c (holds c rows) rows (claim c opts.batch_size rows) mine)
  ]

  claim-over :
      (held : Uuid → Bool) (c : Pass) (n : ℕ) (rows others : List EventRow)
      → Agree held rows others
      → ((id : Uuid) → has_claim id (claimed_in (claim c n rows)) ≡ true → held id ≡ false)
      → claim (also_locked held c) n others ≡ claim c n rows
  unfolding claim also_locked claim_pending
  claim-over held c n rows others a apart = elim (Option-cases c.query) [
    | inr (cause, q) ↦ simp (q, claim) refl
    | inl q ↦ elim (Option-cases c.reading) [
      | inr (cause, z) ↦ simp (q, z, claim) refl
      | inl z ↦
          let free = λ (id : Uuid) (k : has_claim id (claim_pending c n rows) ≡ true).
            apart id (simp (q, z, claim) k) in
          simp (q, z, claim)
            (ap ok (
              claim_pending-Agree held c n rows others a
              ∙ claim_pending-also_locked held c n rows free))
    ]
  ]

  run_once-begun :
      (c : Pass) (rows : List EventRow)
      → c.begin ≡ none
      → run_once float opts c rows ≡ worked float opts c rows (claim c opts.batch_size rows)
  unfolding run_once
  run_once-begun c rows b = simp (b, run_once) refl

  run_once-unbegun :
      (c : Pass) (rows : List EventRow) (cause : Text)
      → c.begin ≡ some cause
      → run_once float opts c rows ≡ (start rows, err (lit "begin outbox transaction: " ++ cause))
  unfolding run_once
  run_once-unbegun c rows cause b = simp (b, run_once) refl

  -- A pass with more locks that keep it from none of its claims.
  run_once-apart :
      (held : Uuid → Bool) (c : Pass) (rows : List EventRow)
      → ((id : Uuid) → holds c rows id ≡ true → held id ≡ false)
      → run_once float opts (also_locked held c) rows ≡ run_once float opts c rows
  unfolding claims also_locked
  run_once-apart held c rows apart = elim (Option-cases c.begin) [
    | inr (cause, b) ↦
        run_once-unbegun (also_locked held c) rows cause b ∙ sym (run_once-unbegun c rows cause b)
    | inl b ↦
        let free =
          λ (id : Uuid) (k : has_claim id (claimed_in (claim c opts.batch_size rows)) ≡ true).
            apart id (simp (b, claims) k) in
        run_once-begun (also_locked held c) rows b
        ∙ ap (worked float opts (also_locked held c) rows)
            (claim-over held c opts.batch_size rows rows (Agree-refl held rows) free)
        ∙ worked-also_locked float opts held c rows _
        ∙ sym (run_once-begun c rows b)
  ]

  due-ne_of_locked :
      (c : Pass) (r : EventRow) (id : Uuid)
      → c.locked id ≡ true
      → is_due c r ≡ true
      → (r.event.id == id) ≡ false
  unfolding is_due
  due-ne_of_locked c r id l due = elim (Bool-cases (r.event.id == id)) [
    | inr other ↦ other
    | inl here ↦
        let same : r.event.id ≡ id = ground arith in
        let q = ap c.locked same in absurd (ground arith)
  ]

  claim_pending-skips :
      (c : Pass) (n : ℕ) (rows : List EventRow) (id : Uuid)
      → c.locked id ≡ true
      → has_claim id (claim_pending c n rows) ≡ false
  unfolding claim_pending is_due has_claim
  claim_pending-skips c zero rows id l = refl
  claim_pending-skips c (suc n) [] id l = refl
  claim_pending-skips c (suc n) (r ∷ rows) id l = ground (
    arith,
    due-ne_of_locked c r id l,
    claim_pending-skips c n rows id l,
    claim_pending-skips c (suc n) rows id l,
  )

  claim-Settled :
      (held : Uuid → Bool) (c : Pass) (n : ℕ) (rows others : List EventRow)
      → Agree held rows others
      → Settled held c others
      → claim c n others ≡ claim (also_locked held c) n rows
  unfolding claim also_locked
  claim-Settled held c n rows others a h = elim (Option-cases c.query) [
    | inr (cause, q) ↦ rw (q, claim) refl
    | inl q ↦ elim (Option-cases c.reading) [
      | inr (cause, z) ↦ rw (q, z, claim) refl
      | inl z ↦
          rw (q, z, claim)
            (ap ok (
              claim_pending-Settled held c n others h ∙ claim_pending-Agree held c n rows others a))
    ]
  ]

  claimed-free :
      (held : Uuid → Bool) (c : Pass) (n : ℕ) (rows : List EventRow)
      → All (λ e. held e.event.id ≡ false) (claimed_in (claim (also_locked held c) n rows))
  unfolding claim also_locked
  claimed-free held c n rows = elim (Option-cases c.query) [
    | inr (cause, q) ↦ rw (q, claim) tt
    | inl q ↦ elim (Option-cases c.reading) [
      | inr (cause, z) ↦ rw (q, z, claim) tt
      | inl z ↦
          let es = claim_pending (also_locked held c) n rows in
          rw (q, z, claim) (All-imp es (λ e mine. claim-free e.event.id mine) (has_claim_self es))
    ]
  ]
    where
      claim-free :
          (id : Uuid)
          → has_claim id (claim_pending (also_locked held c) n rows) ≡ true
          → held id ≡ false
      claim-free id mine = elim (Bool-cases (held id)) [
        | inr free ↦ free
        | inl inside ↦
            let none_of_it =
              claim_pending-skips (also_locked held c) n rows id (ground (arith, inside)) in
            absurd (ground arith)
      ]

  -- The pass when others have committed what they left and released their locks, as it is beside them.
  run_once-after :
      (held : Uuid → Bool) (c : Pass) (rows others : List EventRow)
      → Agree held rows others
      → Settled held c others
      → run_once float opts c others ≡ (
        over float opts c held others (run_once float opts (also_locked held c) rows).0,
        (run_once float opts (also_locked held c) rows).1,
      )
  unfolding also_locked
  run_once-after held c rows others a h = elim (Option-cases c.begin) [
    | inr (cause, b) ↦
        run_once-unbegun c others cause b
        ∙ rw (run_once-unbegun (also_locked held c) rows cause b, overlay-Agree held rows others a)
            refl
    | inl b ↦
        let found = claim (also_locked held c) opts.batch_size rows in
        run_once-begun c others b
        ∙ ap (worked float opts c others) (claim-Settled held c opts.batch_size rows others a h)
        ∙ worked-over float opts c held rows others found (overlay-Agree held rows others a)
            (claimed-free held c opts.batch_size rows)
        ∙ rw
            (run_once-begun (also_locked held c) rows b
              ∙ worked-also_locked float opts held c rows found)
            refl
  ]

  claims-skips :
      (c : Pass) (rows : List EventRow) (id : Uuid) → c.locked id ≡ true → holds c rows id ≡ false
  unfolding claims claim has_claim
  claims-skips c rows id l = ground (arith, claim_pending-skips c opts.batch_size rows id l)

  -- The pass that begins while another holds what it has claimed.
  abbrev pub beside : Pass → List EventRow → Pass → Pass
  beside a rows b = also_locked (holds a rows) b

  -- What the two passes leave, each with the versions of the rows that it held.
  abbrev pub both : Pass → Pass → List EventRow → List EventRow
  both a b rows =
      overlay (holds a rows) (run_once float opts a rows).0.rows (run_once float opts b rows).0.rows

  -- Of two passes at once over the same rows, the second skips the rows that the first has locked.
  -- Where what one has held is published or not due again when the other begins, for both of them:
  -- no event is claimed by both, and each takes, counts and answers as it does when it begins only
  -- after the other has committed and released its locks, in either order, with the rows that both
  -- leave.
  pub overlap-Serial :
      (a b : Pass) (rows : List EventRow)
      → Settled (holds a rows) b (run_once float opts a rows).0.rows
      → Settled (holds (beside a rows b) rows) a (run_once float opts (beside a rows b) rows).0.rows
      → ((id : Uuid) → holds a rows id ≡ true → holds (beside a rows b) rows id ≡ false)
        × (run_once float opts b (run_once float opts a rows).0.rows
            ≡ with_rows
                (both a (beside a rows b) rows)
                (run_once float opts (beside a rows b) rows))
        × (run_once float opts a (run_once float opts (beside a rows b) rows).0.rows
            ≡ with_rows (both a (beside a rows b) rows) (run_once float opts a rows))
  unfolding also_locked
  overlap-Serial a b rows first second =
      let b' = beside a rows b in
      let apart =
        λ (id : Uuid) (h : holds a rows id ≡ true). claims-skips b' rows id (ground (arith, h)) in
      let apart' : (id : Uuid) → holds b' rows id ≡ true → holds a rows id ≡ false =
        λ id h. ground (arith, apart id) in
      let left = run_once-Agree a rows in
      let right = run_once-Agree b' rows in
      (
        apart,
        run_once-after (holds a rows) b rows (run_once float opts a rows).0.rows left first,
        run_once-after (holds b' rows) a rows (run_once float opts b' rows).0.rows right second
            ∙ rw (run_once-apart (holds b' rows) a rows apart) (
                ap (λ rs. with_rows rs (run_once float opts a rows))
                  (sym (overlay_comm (holds a rows) (holds b' rows) rows _ _ apart left right))),
      )
