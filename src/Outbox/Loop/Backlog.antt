-- ===== src/Outbox/Loop/Backlog.antt =====
-- The age of the oldest event that waits.
use emovis_micro_service.Base.{
  ◌≤◌, ◌≡◌, ◌⊎◌, inl, inr, refl, arith, true, false, List, [], ◌∷◌, All, none, some, ok, pos,
  Bool-cases, leb,
}
use mathlib.Core.List.{Memᴰ}
use emovis_micro_service.Base.Clock.{Time, sub}
use emovis_micro_service.Store.Postgres.Database.{EventRow}
use emovis_micro_service.Outbox.Relay.{is_pending, pending_count}
use emovis_micro_service.Outbox.Loop.{oldest_created, earlier, oldest_pending}

-- No event that waits was created before that time.
abbrev pub NoneBefore : Time → List EventRow → Type 0
NoneBefore t rows = All (λ r. is_pending r ≡ true → t.instant ≤ r.event.created_at.instant) rows

abbrev pub Oldest : Time → List EventRow → Type 0
Oldest t rows =
    ((row : EventRow) × (is_pending row ≡ true) × (row.event.created_at ≡ t) × Memᴰ row rows)
    × NoneBefore t rows

NoneBefore-earlier :
    (t u : Time) (rows : List EventRow)
    → t.instant ≤ u.instant
    → NoneBefore u rows
    → NoneBefore t rows
NoneBefore-earlier t u [] le a = tt
NoneBefore-earlier t u (r ∷ rows) le (h, a) =
    ((λ p. let b = h p in omega arith), NoneBefore-earlier t u rows le a)

NoneBefore-idle : (t : Time) (rows : List EventRow) → pending_count rows ≡ 0 → NoneBefore t rows
unfolding pending_count
NoneBefore-idle t [] h = tt
NoneBefore-idle t (r ∷ rows) h =
    ((λ p. absurd (ground arith)), NoneBefore-idle t rows (ground arith))

Oldest-first :
    (r : EventRow) (rows : List EventRow)
    → is_pending r ≡ true
    → NoneBefore r.event.created_at rows
    → Oldest r.event.created_at (r ∷ rows)
Oldest-first r rows p a = ((r, p, refl, Memᴰ.head refl), ((λ q. omega arith), a))

-- The minimum over the rows that wait, or none where no row waits.
oldest_created-cases :
    (rows : List EventRow)
    → ((oldest_created rows ≡ none) × (pending_count rows ≡ 0))
      ⊎ ((t : Time) × (oldest_created rows ≡ some t) × Oldest t rows)
unfolding oldest_created earlier pending_count
oldest_created-cases [] = inl (refl, refl)
oldest_created-cases (r ∷ rows) = elim (Bool-cases (is_pending r)) [
  | inr idle ↦ elim (oldest_created-cases rows) [
    | inl (e, z) ↦ inl (ground arith, ground arith)
    | inr (t, e, ((row, p, q, m), a)) ↦
        inr (t, ground arith, ((row, p, q, Memᴰ.tail m), ((λ w. absurd (ground arith)), a)))
  ]
  | inl waits ↦ elim (oldest_created-cases rows) [
    | inl (e, z) ↦ inr (
      r.event.created_at,
      ground arith,
      Oldest-first r rows waits (NoneBefore-idle r.event.created_at rows z),
    )
    | inr (t, e, ((row, p, q, m), a)) ↦
        elim (Bool-cases (leb r.event.created_at.instant t.instant)) [
          | inl first ↦ inr (
            r.event.created_at,
            ground arith,
            Oldest-first r rows waits
                (NoneBefore-earlier r.event.created_at t rows (ground arith) a),
          )
          | inr later ↦ inr (t, ground arith, ((row, p, q, Memᴰ.tail m), ((λ w. ground arith), a)))
        ]
  ]
]

-- Where the query answers, either no event waits, the report says so and its age is 0, or the report
-- gives the age of an event that waits and that no other one that waits is older than.
pub oldest_pending-Oldest :
    (now : Time) (rows : List EventRow)
    → ((oldest_pending now none rows ≡ ok (pos 0, false)) × (pending_count rows ≡ 0))
      ⊎ ((t : Time) × (oldest_pending now none rows ≡ ok (sub now t, true)) × Oldest t rows)
unfolding oldest_pending
oldest_pending-Oldest now rows = elim (oldest_created-cases rows) [
  | inl (e, z) ↦ inl (simp (e, oldest_pending) refl, z)
  | inr (t, e, h) ↦ inr (t, simp (e, oldest_pending) refl, h)
]
