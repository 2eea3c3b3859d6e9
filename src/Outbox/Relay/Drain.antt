-- ===== src/Outbox/Relay/Drain.antt =====
-- How many events a pass of the relay publishes.
use emovis_micro_service.Base.{
  ℕ, ◌+◌, ◌≡◌, inl, inr, refl, arith, Text, Bool, true, false, ◌&&◌, ◌||◌, ◌==◌, List, [], ◌∷◌,
  Bool-cases,
}
use emovis_micro_service.Transaction.Model.{Uuid}
use emovis_micro_service.Store.Postgres.Database.{EventRow, has_event}
use emovis_micro_service.Outbox.Relay.{is_pending, update, published, failed, pending_count}

-- The unique constraint on `event_id`.
unfoldable pub IsUnique : List EventRow → Type 0
IsUnique [] = Unit
IsUnique (r ∷ rows) = (has_event r.event.id rows ≡ false) × IsUnique rows

unfoldable pub has_pending : Uuid → List EventRow → Bool
has_pending id [] = false
has_pending id (r ∷ rows) = (r.event.id == id && is_pending r) || has_pending id rows

-- An update that keeps the identifier of every event.
abbrev pub KeepsId : (EventRow → EventRow) → Type 0
KeepsId f = (r : EventRow) → (f r).event.id ≡ r.event.id

has_event-update :
    (f : EventRow → EventRow) (id x : Uuid) (rows : List EventRow)
    → KeepsId f
    → has_event x (update f id rows) ≡ has_event x rows
unfolding has_event update
has_event-update f id x [] k = refl
has_event-update f id x (r ∷ rows) k = ground (arith, k r, has_event-update f id x rows k)

pub IsUnique-update :
    (f : EventRow → EventRow) (id : Uuid) (rows : List EventRow)
    → KeepsId f
    → IsUnique rows
    → IsUnique (update f id rows)
unfolding IsUnique update
IsUnique-update f id [] k u = tt
IsUnique-update f id (r ∷ rows) k (here, u) =
    (ground (arith, k r, has_event-update f id r.event.id rows k), IsUnique-update f id rows k u)

pending_count-absent :
    (f : EventRow → EventRow) (id : Uuid) (rows : List EventRow)
    → has_event id rows ≡ false
    → pending_count (update f id rows) ≡ pending_count rows
unfolding pending_count update has_event
pending_count-absent f id [] h = refl
pending_count-absent f id (r ∷ rows) h = ground (arith, pending_count-absent f id rows)

pub pending_count-failed :
    (now b : ℕ) (cause : Text) (id : Uuid) (rows : List EventRow)
    → pending_count (update (failed now cause b) id rows) ≡ pending_count rows
unfolding pending_count update failed
pending_count-failed now b cause id [] = refl
pending_count-failed now b cause id (r ∷ rows) =
    ground (arith, pending_count-failed now b cause id rows)

pub has_pending-has_event :
    (id : Uuid) (rows : List EventRow) → has_pending id rows ≡ true → has_event id rows ≡ true
unfolding has_pending has_event
has_pending-has_event id [] h = h
has_pending-has_event id (r ∷ rows) h = ground (arith, has_pending-has_event id rows)

-- Marking the event of a pending row takes one from the count.
pub pending_count-published :
    (now : ℕ) (id : Uuid) (rows : List EventRow)
    → IsUnique rows
    → has_pending id rows ≡ true
    → pending_count (update (published now) id rows) + 1 ≡ pending_count rows
unfolding IsUnique pending_count update published has_pending
pending_count-published now id [] u h = absurd (ground arith)
pending_count-published now id (r ∷ rows) (here, u) h = elim (Bool-cases (r.event.id == id)) [
  | inl same ↦
      ground
        (arith, here, pending_count-absent (published now) id rows, has_pending-has_event id rows)
  | inr other ↦ ground (arith, pending_count-published now id rows u)
]

pub has_pending-other :
    (f : EventRow → EventRow) (id x : Uuid) (rows : List EventRow)
    → KeepsId f
    → (x == id) ≡ false
    → has_pending x (update f id rows) ≡ has_pending x rows
unfolding has_pending update
has_pending-other f id x [] k h = refl
has_pending-other f id x (r ∷ rows) k h = ground (arith, k r, has_pending-other f id x rows k)
