-- ===== src/Outbox/Relay/Worked.antt =====
-- What a pass does with the events that it has claimed, beside another that has claimed others.
use emovis_micro_service.Base.{
  ℕ, ◌≡◌, refl, sym, ◌∙◌, ap, Text, Bool, true, false, List, [], ◌∷◌, Result, ok, err, All,
  Bool-cases, inl, inr, if◌then◌else◌,
}
use emovis_micro_service.Transaction.Model.{Uuid}
use emovis_micro_service.Outbox.Backoff.{FloatApi, Tuning}
use emovis_micro_service.Store.Postgres.Database.{EventRow}
use emovis_micro_service.Store.Postgres.{Commit, commits, fails, answer_lost}
use emovis_micro_service.Outbox.Relay.{
  Claimed, Pass, Progress, publish_one, publish_all, ended, finish, worked,
}
use emovis_micro_service.Outbox.Relay.Overlay.{Agree, Agree-refl, overlay}
use emovis_micro_service.Outbox.Relay.Alone.{also_locked, publish_all-Agree, over, publish_all-over}

abbrev pub claimed_in : Result Text (List Claimed) → List Claimed
claimed_in (ok es) = es
claimed_in (err cause) = []

abbrev pub start : List EventRow → Progress
start rows = record { rows = rows; aborted = false; delivered = []; results = [] }

abbrev pub with_rows : List EventRow → Progress × Result Text ℕ → Progress × Result Text ℕ
with_rows rows (s, r) = (record s { rows = rows }, r)

module _ (float : FloatApi) (opts : Tuning) where
  publish_all-also_locked :
      (held : Uuid → Bool) (c : Pass) (es : List Claimed) (p : Progress × ℕ)
      → publish_all float opts (also_locked held c) es p ≡ publish_all float opts c es p
  unfolding publish_all publish_one also_locked
  publish_all-also_locked held c [] (s, n) = refl
  publish_all-also_locked held c (e ∷ es) (s, n) = publish_all-also_locked held c es (_, _)

  ended-also_locked :
      (held : Uuid → Bool) (c : Pass) (rows : List EventRow) (how : Commit) (p : Progress × ℕ)
      → ended float opts (also_locked held c) rows how p ≡ ended float opts c rows how p
  unfolding ended
  ended-also_locked held c rows commits (s, n) = refl
  ended-also_locked held c rows (fails cause) (s, n) = refl
  ended-also_locked held c rows (answer_lost cause) (s, n) = refl

  finish-also_locked :
      (held : Uuid → Bool) (c : Pass) (rows : List EventRow) (p : Progress × ℕ)
      → finish float opts (also_locked held c) rows p ≡ finish float opts c rows p
  unfolding finish also_locked
  finish-also_locked held c rows (s, n) = rw (ended-also_locked held c rows c.commit (s, n)) refl

  -- Once it has claimed, a pass looks at no lock.
  pub worked-also_locked :
      (held : Uuid → Bool) (c : Pass) (rows : List EventRow) (r : Result Text (List Claimed))
      → worked float opts (also_locked held c) rows r ≡ worked float opts c rows r
  unfolding worked
  worked-also_locked held c rows (err cause) = refl
  worked-also_locked held c rows (ok []) = refl
  worked-also_locked held c rows (ok (e ∷ es)) =
      finish-also_locked held c rows _
      ∙ ap (finish float opts c rows) (publish_all-also_locked held c (e ∷ es) (start rows, 0))

  module _ (c : Pass) (held : Uuid → Bool) where
    finish-Agree :
        (rows : List EventRow) (p : Progress × ℕ)
        → Agree held rows p.0.rows
        → Agree held rows (finish float opts c rows p).0.rows
    unfolding finish ended
    finish-Agree rows (s, n) a = elim (Bool-cases s.aborted) [
      | inl x ↦ simp x (Agree-refl held rows)
      | inr x ↦ simp x (ended-Agree c.commit)
    ]
      where
        ended-Agree : (how : Commit) → Agree held rows (ended float opts c rows how (s, n)).0.rows
        ended-Agree commits = a
        ended-Agree (fails cause) = Agree-refl held rows
        ended-Agree (answer_lost cause) = a

    pub worked-Agree :
        (rows : List EventRow) (r : Result Text (List Claimed))
        → All (λ e. held e.event.id ≡ true) (claimed_in r)
        → Agree held rows (worked float opts c rows r).0.rows
    unfolding worked
    worked-Agree rows (err cause) h = Agree-refl held rows
    worked-Agree rows (ok []) h = Agree-refl held rows
    worked-Agree rows (ok (e ∷ es)) h = finish-Agree rows _ (
        publish_all-Agree float opts c held rows (e ∷ es)
          (record { rows = rows; aborted = false; delivered = []; results = [] }) 0 h
          (Agree-refl held rows))

    if-over :
        (b : Bool) (others : List EventRow) (x' y' x y : Progress × Result Text ℕ)
        → x' ≡ (over float opts c held others x.0, x.1)
        → y' ≡ (over float opts c held others y.0, y.1)
        → (if b then x' else y')
          ≡ (over float opts c held others (if b then x else y).0, (if b then x else y).1)
    if-over true others x' y' x y p q = p
    if-over false others x' y' x y p q = q

    finish-over :
        (rows others : List EventRow) (s : Progress) (n : ℕ)
        → overlay held others rows ≡ others
        → finish float opts c others (over float opts c held others s, n) ≡ (
          over float opts c held others (finish float opts c rows (s, n)).0,
          (finish float opts c rows (s, n)).1,
        )
    unfolding finish ended
    finish-over rows others s n e =
        if-over s.aborted others _ _ _ _ (rw e refl) (ended-over c.commit)
      where
        ended-over :
            (how : Commit)
            → ended float opts c others how (over float opts c held others s, n) ≡ (
              over float opts c held others (ended float opts c rows how (s, n)).0,
              (ended float opts c rows how (s, n)).1,
            )
        ended-over commits = refl
        ended-over (fails cause) = rw e refl
        ended-over (answer_lost cause) = refl

    pub worked-over :
        (rows others : List EventRow) (r : Result Text (List Claimed))
        → overlay held others rows ≡ others
        → All (λ e. held e.event.id ≡ false) (claimed_in r)
        → worked float opts c others r ≡ (
          over float opts c held others (worked float opts c rows r).0,
          (worked float opts c rows r).1,
        )
    unfolding worked
    worked-over rows others (err cause) e h = rw e refl
    worked-over rows others (ok []) e h = rw e refl
    worked-over rows others (ok (x ∷ es)) e h =
        ap (finish float opts c others) (
          ap (λ rs. publish_all float opts c (x ∷ es) (start rs, 0)) (sym e)
          ∙ publish_all-over float opts c held others (x ∷ es) (start rows) 0 h)
        ∙ finish-over rows others (publish_all float opts c (x ∷ es) (start rows, 0)).0
            (publish_all float opts c (x ∷ es) (start rows, 0)).1 e
