-- ===== src/Outbox/Relay/Alone.antt =====
-- Which rows a pass reads and writes, and how it runs over versions of the other rows.
use emovis_micro_service.Base.{
  ℕ, zero, suc, ◌+◌, ◌≡◌, refl, ◌∙◌, ap, arith, Text, Bool, true, false, ◌||◌, ◌&&◌, not, leb, List,
  [], ◌∷◌, ◌++◌, Option, none, some, All, All-imp, Bool-cases, Option-cases, inl, inr,
  if◌then◌else◌, lit,
}
use emovis_micro_service.Transaction.Model.{Uuid}
use emovis_micro_service.Outbox.Event.{Event}
use emovis_micro_service.Outbox.Backoff.{FloatApi, Tuning, is_parked, retry_delay}
use emovis_micro_service.Store.Postgres.Database.{EventRow}
use emovis_micro_service.Outbox.Relay.{
  Claimed, Pass, is_pending, is_due, claim_pending, published, failed, Progress, exec, wrapped,
  count_result, record_failure, marked, publish_one, publish_all, counted,
}
use emovis_micro_service.Outbox.Relay.Claims.{has_claim}
use emovis_micro_service.Outbox.Relay.Overlay.{
  Agree, Agree-update, overlay, overlay-update, KeepsEvent,
}

-- The pass that meets these locks too.
unfoldable pub also_locked : (Uuid → Bool) → Pass → Pass
also_locked held c = record c { locked = λ id. c.locked id || held id }

is_due-also_locked :
    (held : Uuid → Bool) (c : Pass) (r : EventRow)
    → is_due (also_locked held c) r ≡ (is_due c r && not (held r.event.id))
unfolding is_due also_locked
is_due-also_locked held c r = ground arith

-- What is held is not read: the claims are the same over any versions of it.
pub claim_pending-Agree :
    (held : Uuid → Bool) (c : Pass) (n : ℕ) (rows rows' : List EventRow)
    → Agree held rows rows'
    → claim_pending (also_locked held c) n rows' ≡ claim_pending (also_locked held c) n rows
unfolding claim_pending is_due also_locked
claim_pending-Agree held c zero rows rows' a = refl
claim_pending-Agree held c (suc n) [] [] a = refl
claim_pending-Agree held c (suc n) [] (r' ∷ rows') a = absurd a
claim_pending-Agree held c (suc n) (r ∷ rows) [] a = absurd a
claim_pending-Agree held c (suc n) (r ∷ rows) (r' ∷ rows') (e, s, a) = ground (
  arith,
  ap (λ v. held v.id) e,
  ap (λ v. c.locked v.id) e,
  claim_pending-Agree held c n rows rows' a,
  claim_pending-Agree held c (suc n) rows rows' a,
)

-- What others held and have left, at the time of the pass: published, or not due again yet.
abbrev pub Settled : (Uuid → Bool) → Pass → List EventRow → Type 0
Settled held c rows =
    All (λ r. held r.event.id ≡ true → is_pending r ≡ true → leb r.next_attempt_at c.now ≡ false)
      rows

is_due-Settled :
    (held : Uuid → Bool) (c : Pass) (r : EventRow)
    → (held r.event.id ≡ true → is_pending r ≡ true → leb r.next_attempt_at c.now ≡ false)
    → is_due c r ≡ is_due (also_locked held c) r
unfolding is_due also_locked
is_due-Settled held c r h = elim (Bool-cases (held r.event.id)) [
  | inr free ↦ ground arith
  | inl inside ↦ elim (Bool-cases (is_pending r)) [
    | inr gone ↦ ground arith
    | inl waits ↦ ground (arith, h inside waits)
  ]
]

-- A pass that comes when the locks are released claims what it claims beside them, where what was
-- locked is settled.
pub claim_pending-Settled :
    (held : Uuid → Bool) (c : Pass) (n : ℕ) (rows : List EventRow)
    → Settled held c rows
    → claim_pending c n rows ≡ claim_pending (also_locked held c) n rows
unfolding claim_pending
claim_pending-Settled held c zero rows h = refl
claim_pending-Settled held c (suc n) [] h = refl
claim_pending-Settled held c (suc n) (r ∷ rows) (h, hs) =
    rw
      (
        is_due-Settled held c r h,
        claim_pending-Settled held c n rows hs,
        claim_pending-Settled held c (suc n) rows hs,
      )
      refl

-- Locks on rows that the pass does not claim change nothing.
pub claim_pending-also_locked :
    (held : Uuid → Bool) (c : Pass) (n : ℕ) (rows : List EventRow)
    → ((id : Uuid) → has_claim id (claim_pending c n rows) ≡ true → held id ≡ false)
    → claim_pending (also_locked held c) n rows ≡ claim_pending c n rows
unfolding claim_pending
claim_pending-also_locked held c zero rows h = refl
claim_pending-also_locked held c (suc n) [] h = refl
claim_pending-also_locked held c (suc n) (r ∷ rows) h = elim (Bool-cases (is_due c r)) [
  | inr later ↦
      rw (is_due-also_locked held c r, later)
        (claim_pending-also_locked held c (suc n) rows (λ id q. h id (rw later q)))
  | inl due ↦
      let free : held r.event.id ≡ false =
        h r.event.id (rw due (unfold has_claim in ground arith)) in
      let rest =
        claim_pending-also_locked held c n rows
          (λ id q. h id (rw due (unfold has_claim in ground arith))) in
      let first : Claimed = record { event = r.event; attempts = r.attempts } in
      rw (is_due-also_locked held c r, due, free) (ap (λ es. first ∷ es) rest)
]

pub has_claim_self : (es : List Claimed) → All (λ e. has_claim e.event.id es ≡ true) es
unfolding has_claim
has_claim_self [] = tt
has_claim_self (e ∷ es) = (ground arith, All-imp es (λ x h. ground arith) (has_claim_self es))

module _ (float : FloatApi) (opts : Tuning) (c : Pass) (held : Uuid → Bool) where
  exec-Agree :
      (before : List EventRow) (e : Event) (f : EventRow → EventRow) (s : Progress)
      → KeepsEvent f
      → held e.id ≡ true
      → Agree held before s.rows
      → Agree held before (exec c e f s).0.rows
  unfolding exec
  exec-Agree before e f s k h a = elim (Bool-cases s.aborted) [
    | inl x ↦ simp x a
    | inr x ↦ elim (Option-cases (c.mark e)) [
      | inl m ↦ simp (x, m) (Agree-update held f e.id before s.rows k h a)
      | inr (cause, m) ↦ simp (x, m) a
    ]
  ]

  failed-KeepsEvent : (cause : Text) (b : ℕ) → KeepsEvent (failed c.now cause b)
  unfolding failed
  failed-KeepsEvent cause b r = refl

  published-KeepsEvent : KeepsEvent (published c.now)
  unfolding published
  published-KeepsEvent r = refl

  marked-Agree :
      (before : List EventRow) (p : Progress × Option Text)
      → Agree held before p.0.rows
      → Agree held before (marked float opts c p).0.rows
  unfolding marked count_result
  marked-Agree before (s, none) a = a
  marked-Agree before (s, some cause) a = a

  wrapped-Agree :
      (before : List EventRow) (message : Text) (otherwise : Option Text)
      (p : Progress × Option Text)
      → Agree held before p.0.rows
      → Agree held before (wrapped message otherwise p).0.rows
  unfolding wrapped
  wrapped-Agree before message otherwise (s, none) a = a
  wrapped-Agree before message otherwise (s, some cause) a = a

  publish_one-Agree :
      (before : List EventRow) (e : Claimed) (s : Progress)
      → held e.event.id ≡ true
      → Agree held before s.rows
      → Agree held before (publish_one float opts c e s).0.rows
  unfolding publish_one record_failure marked count_result wrapped
  publish_one-Agree before e s h a = elim (Option-cases (c.publish e.event)) [
    | inl p ↦
        rw (p, publish_one)
          (marked-Agree before _ (exec-Agree before e.event _ _ published-KeepsEvent h a))
    | inr (cause, p) ↦
        rw (p, publish_one)
          (wrapped-Agree before _ _ _
            (exec-Agree before e.event _ _ (failed-KeepsEvent cause _) h a))
  ]

  pub publish_all-Agree :
      (before : List EventRow) (es : List Claimed) (s : Progress) (n : ℕ)
      → All (λ e. held e.event.id ≡ true) es
      → Agree held before s.rows
      → Agree held before (publish_all float opts c es (s, n)).0.rows
  unfolding publish_all
  publish_all-Agree before [] s n hs a = a
  publish_all-Agree before (e ∷ es) s n (h, hs) a =
      publish_all-Agree before es (publish_one float opts c e s).0
        (n + counted float opts c (publish_one float opts c e s).1) hs
        (publish_one-Agree before e s h a)

  -- The rows of others, laid over those of a pass under way.
  abbrev pub over : List EventRow → Progress → Progress
  over others s = record s { rows = overlay held others s.rows }

  exec-over :
      (others : List EventRow) (e : Event) (f : EventRow → EventRow) (s : Progress)
      → KeepsEvent f
      → held e.id ≡ false
      → exec c e f (over others s) ≡ (over others (exec c e f s).0, (exec c e f s).1)
  unfolding exec
  exec-over others e f s k h = elim (Bool-cases s.aborted) [
    | inl x ↦ simp (x, exec) refl
    | inr x ↦ elim (Option-cases (c.mark e)) [
      | inl m ↦ simp (x, m, exec, overlay-update held f e.id others s.rows k h) refl
      | inr (cause, m) ↦ simp (x, m, exec) refl
    ]
  ]

  marked-over :
      (others : List EventRow) (s : Progress) (o : Option Text)
      → marked float opts c (over others s, o)
        ≡ (over others (marked float opts c (s, o)).0, (marked float opts c (s, o)).1)
  unfolding marked count_result
  marked-over others s none = refl
  marked-over others s (some cause) = refl

  wrapped-over :
      (others : List EventRow) (message : Text) (otherwise : Option Text) (s : Progress)
      (o : Option Text)
      → wrapped message otherwise (over others s, o)
        ≡ (over others (wrapped message otherwise (s, o)).0, (wrapped message otherwise (s, o)).1)
  unfolding wrapped
  wrapped-over others message otherwise s none = refl
  wrapped-over others message otherwise s (some cause) = refl

  publish_one-over :
      (others : List EventRow) (e : Claimed) (s : Progress)
      → held e.event.id ≡ false
      → publish_one float opts c e (over others s)
        ≡ (over others (publish_one float opts c e s).0, (publish_one float opts c e s).1)
  unfolding publish_one record_failure count_result
  publish_one-over others e s h = elim (Option-cases (c.publish e.event)) [
    | inl p ↦
        let s₁ : Progress = record s { delivered = s.delivered ++ (e.event ∷ []) } in
        simp (p, publish_one)
          (ap (marked float opts c) (exec-over others e.event _ s₁ published-KeepsEvent h)
            ∙ marked-over others _ _)
    | inr (cause, p) ↦
        let attempts = e.attempts + 1 in
        let value = if is_parked opts attempts then lit "parked" else lit "failed" in
        let s₁ : Progress = record s { results = s.results ++ (value ∷ []) } in
        simp (p, publish_one)
          (ap (wrapped (lit "record publish failure: ") (some cause)) (
              exec-over others e.event _ s₁
                (failed-KeepsEvent cause (retry_delay float opts attempts)) h)
            ∙ wrapped-over others _ _ _ _)
  ]

  pub publish_all-over :
      (others : List EventRow) (es : List Claimed) (s : Progress) (n : ℕ)
      → All (λ e. held e.event.id ≡ false) es
      → publish_all float opts c es (over others s, n) ≡ (
        over others (publish_all float opts c es (s, n)).0,
        (publish_all float opts c es (s, n)).1,
      )
  unfolding publish_all
  publish_all-over others [] s n hs = refl
  publish_all-over others (e ∷ es) s n (h, hs) = rw (publish_one-over others e s h) (
      publish_all-over others es (publish_one float opts c e s).0
        (n + counted float opts c (publish_one float opts c e s).1) hs)
