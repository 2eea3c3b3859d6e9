-- ===== src/Outbox/Relay/Overlay.antt =====
-- Row versions: what a pass that holds some rows leaves of the outbox, and what two passes leave that
-- hold different rows.
use emovis_micro_service.Base.{
  ◌≡◌, refl, arith, sym, ◌∙◌, ap, Bool, true, false, ◌==◌, if◌then◌else◌, List, [], ◌∷◌, Bool-cases,
  inl, inr,
}
use emovis_micro_service.Transaction.Model.{Uuid}
use emovis_micro_service.Store.Postgres.Database.{EventRow}
use emovis_micro_service.Outbox.Relay.{update}

-- Row by row the same event, and outside what is held the same row.
abbrev pub Agree : (Uuid → Bool) → List EventRow → List EventRow → Type 0
Agree held [] [] = Unit
Agree held [] (r' ∷ rows') = ⊥
Agree held (r ∷ rows) [] = ⊥
Agree held (r ∷ rows) (r' ∷ rows') =
    (r'.event ≡ r.event) × (held r.event.id ≡ false → r' ≡ r) × Agree held rows rows'

-- The rows of the second list, with the columns that change as the first has them where its row is
-- held: no statement writes the columns of the event.
unfoldable pub overlay : (Uuid → Bool) → List EventRow → List EventRow → List EventRow
overlay held [] rows' = rows'
overlay held (r ∷ rows) [] = []
overlay held (r ∷ rows) (r' ∷ rows') =
    (if held r'.event.id then record r { event = r'.event } else r') ∷ overlay held rows rows'

abbrev pub KeepsEvent : (EventRow → EventRow) → Type 0
KeepsEvent f = (r : EventRow) → (f r).event ≡ r.event

module _ (held : Uuid → Bool) where
  pub Agree-refl : (rows : List EventRow) → Agree held rows rows
  Agree-refl [] = tt
  Agree-refl (r ∷ rows) = (refl, (λ h. refl), Agree-refl rows)

  pub Agree-update :
      (f : EventRow → EventRow) (id : Uuid) (rows rows' : List EventRow)
      → KeepsEvent f
      → held id ≡ true
      → Agree held rows rows'
      → Agree held rows (update f id rows')
  unfolding update
  Agree-update f id [] [] k h a = a
  Agree-update f id [] (r' ∷ rows') k h a = absurd a
  Agree-update f id (r ∷ rows) [] k h a = a
  Agree-update f id (r ∷ rows) (r' ∷ rows') k h (e, s, a) = elim (Bool-cases (r'.event.id == id)) [
    | inl here ↦
        let inside : held r.event.id ≡ true =
          ap (λ v. held v.id) (sym e) ∙ ap held (ground arith) ∙ h in
        rw here (k r' ∙ e, (λ out. absurd (ground arith)), Agree-update f id rows rows' k h a)
    | inr other ↦ rw other (e, s, Agree-update f id rows rows' k h a)
  ]

  pub overlay-Agree :
      (rows rows' : List EventRow) → Agree held rows rows' → overlay held rows' rows ≡ rows'
  unfolding overlay
  overlay-Agree [] [] a = refl
  overlay-Agree [] (r' ∷ rows') a = absurd a
  overlay-Agree (r ∷ rows) [] a = absurd a
  overlay-Agree (r ∷ rows) (r' ∷ rows') (e, s, a) = elim (Bool-cases (held r.event.id)) [
    | inl inside ↦
        rw (inside, overlay-Agree rows rows' a) (ap (λ v. record r' { event = v } ∷ rows') (sym e))
    | inr out ↦ rw (out, overlay-Agree rows rows' a) (ap (λ x. x ∷ rows') (sym (s out)))
  ]

  pub overlay-update :
      (f : EventRow → EventRow) (id : Uuid) (rows rows' : List EventRow)
      → KeepsEvent f
      → held id ≡ false
      → update f id (overlay held rows rows') ≡ overlay held rows (update f id rows')
  unfolding overlay update
  overlay-update f id [] rows' k h = refl
  overlay-update f id (r ∷ rows) [] k h = refl
  overlay-update f id (r ∷ rows) (r' ∷ rows') k h = elim (Bool-cases (r'.event.id == id)) [
    | inl here ↦
        let free : held r'.event.id ≡ false = ap held (ground arith) ∙ h in
        let kept : held (f r').event.id ≡ false = ap (λ v. held v.id) (k r') ∙ free in
        rw (free, here, kept, overlay-update f id rows rows' k h) refl
    | inr other ↦ elim (Bool-cases (held r'.event.id)) [
      | inl inside ↦ simp (inside, other, overlay-update f id rows rows' k h) refl
      | inr free ↦ simp (free, other, overlay-update f id rows rows' k h) refl
    ]
  ]

-- Two passes that hold different rows: it does not matter whose versions are laid over whose.
pub overlay_comm :
    (held held' : Uuid → Bool) (rows left right : List EventRow)
    → ((id : Uuid) → held id ≡ true → held' id ≡ false)
    → Agree held rows left
    → Agree held' rows right
    → overlay held left right ≡ overlay held' right left
unfolding overlay
overlay_comm held held' [] [] [] d a b = refl
overlay_comm held held' [] [] (r ∷ right) d a b = absurd b
overlay_comm held held' [] (l ∷ left) right d a b = absurd a
overlay_comm held held' (x ∷ rows) [] right d a b = absurd a
overlay_comm held held' (x ∷ rows) (l ∷ left) [] d a b = absurd b
overlay_comm held held' (x ∷ rows) (l ∷ left) (r ∷ right) d (e, s, a) (e', s', b) =
    let rest = overlay_comm held held' rows left right d a b in
    let apart = d x.event.id in
    let same = e' ∙ sym e in
    ground (arith, ap held (ap (λ v. v.id) e), ap held' (ap (λ v. v.id) e'))
