-- ===== src/Outbox/Relay/Rows.antt =====
-- How the rows of the outbox may change.
use emovis_micro_service.Base.{
  ◌⊎◌, ◌≤◌, ◌≡◌, refl, arith, Bool, true, false, ◌||◌, ◌==◌, List, [], ◌∷◌, ◌++◌, map, Bool-cases,
}
use emovis_micro_service.Transaction.Model.{Uuid}
use emovis_micro_service.Outbox.Event.{Event}
use emovis_micro_service.Store.Postgres.Database.{EventRow}
use emovis_micro_service.Outbox.Relay.{is_pending, update}

unfoldable pub was_delivered : Uuid → List Event → Bool
was_delivered id [] = false
was_delivered id (e ∷ es) = e.id == id || was_delivered id es

pub was_delivered-append :
    (id : Uuid) (d d' : List Event) → was_delivered id d ≡ true → was_delivered id (d ++ d') ≡ true
unfolding was_delivered
was_delivered-append id [] d' h = absurd (ground arith)
was_delivered-append id (e ∷ d) d' h = ground (arith, was_delivered-append id d d')

pub was_delivered-prepend :
    (id : Uuid) (d d' : List Event) → was_delivered id d' ≡ true → was_delivered id (d ++ d') ≡ true
unfolding was_delivered
was_delivered-prepend id [] d' h = h
was_delivered-prepend id (e ∷ d) d' h = ground (arith, was_delivered-prepend id d d' h)

pub was_delivered-last : (e : Event) (d : List Event) → was_delivered e.id (d ++ (e ∷ [])) ≡ true
unfolding was_delivered
was_delivered-last e [] = ground arith
was_delivered-last e (x ∷ d) = ground (arith, was_delivered-last e d)

-- A row keeps its event, counts its attempts upwards, stays published once it is, and becomes
-- published only if the publisher took its event.
pub record Kept (d : List Event) (r r' : EventRow) : Type 0 where
  pub event : r'.event ≡ r.event
  pub attempts : r.attempts ≤ r'.attempts
  pub published : (is_pending r ≡ true) ⊎ (is_pending r' ≡ false)
  pub delivered :
      (is_pending r ≡ false) ⊎ ((is_pending r' ≡ true) ⊎ (was_delivered r.event.id d ≡ true))

-- Row by row
abbrev pub Follows : List Event → List EventRow → List EventRow → Type 0
Follows d [] [] = Unit
Follows d [] (r' ∷ rs') = ⊥
Follows d (r ∷ rs) [] = ⊥
Follows d (r ∷ rs) (r' ∷ rs') = Kept d r r' × Follows d rs rs'

Kept-refl : (d : List Event) (r : EventRow) → Kept d r r
Kept-refl d r = record {
  event = refl;
  attempts = omega arith;
  published = Bool-cases (is_pending r);
  delivered = ground arith;
}

pub Follows-refl : (d : List Event) (rows : List EventRow) → Follows d rows rows
Follows-refl d [] = tt
Follows-refl d (r ∷ rows) = (Kept-refl d r, Follows-refl d rows)

Kept-more : (d d' : List Event) (r r' : EventRow) → Kept d r r' → Kept (d ++ d') r r'
Kept-more d d' r r' k = record {
  event = k.event;
  attempts = k.attempts;
  published = k.published;
  delivered = let q = k.delivered in ground (arith, was_delivered-append r.event.id d d');
}

pub Follows-more :
    (d d' : List Event) (rows rows' : List EventRow)
    → Follows d rows rows'
    → Follows (d ++ d') rows rows'
Follows-more d d' [] [] f = tt
Follows-more d d' [] (r' ∷ rows') f = f
Follows-more d d' (r ∷ rows) [] f = f
Follows-more d d' (r ∷ rows) (r' ∷ rows') (k, f) =
    (Kept-more d d' r r' k, Follows-more d d' rows rows' f)

-- The effect of an update on a row.
abbrev pub Harmless : List Event → Uuid → (EventRow → EventRow) → Type 0
Harmless d id f =
    (r : EventRow)
    → ((f r).event ≡ r.event)
      × (r.attempts ≤ (f r).attempts)
      × (is_pending r ≡ false → is_pending (f r) ≡ false)
      × (is_pending r ≡ true → is_pending (f r) ≡ false → was_delivered id d ≡ true)

pub Follows-update :
    (d : List Event) (id : Uuid) (f : EventRow → EventRow) (rows rows' : List EventRow)
    → Harmless d id f
    → Follows d rows rows'
    → Follows d rows (update f id rows')
unfolding update
Follows-update d id f [] [] h w = w
Follows-update d id f [] (r' ∷ rows') h w = absurd w
Follows-update d id f (r ∷ rows) [] h w = w
Follows-update d id f (r ∷ rows) (r' ∷ rows') h (k, w) = (
  (let (e, a, p, q) = h r' in
      let e₀ = k.event in
      let a₀ = k.attempts in
      let p₀ = k.published in
      let q₀ = k.delivered in
      record {
        event = ground arith;
        attempts = ground arith;
        published = ground arith;
        delivered = ground arith;
      }),
  Follows-update d id f rows rows' h w,
)

pub Follows-events :
    (d : List Event) (rows rows' : List EventRow)
    → Follows d rows rows'
    → map (λ r. r.event) rows' ≡ map (λ r. r.event) rows
Follows-events d [] [] f = refl
Follows-events d [] (r' ∷ rows') f = absurd f
Follows-events d (r ∷ rows) [] f = absurd f
Follows-events d (r ∷ rows) (r' ∷ rows') (k, f) = simp (k.event, Follows-events d rows rows' f)
