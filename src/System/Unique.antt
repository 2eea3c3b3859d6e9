-- ===== src/System/Unique.antt =====
-- The keys and the event identifiers of the two tables under what is appended and updated.
use emovis_micro_service.Base.{
  text_eq_iff, none, List, [], ◌∷◌, ◌++◌, ◌≡◌, refl, ap, ◌∙◌, arith, false, ◌||◌, text_eq_iff, none,
  ◌==◌,
}
use emovis_micro_service.Transaction.Model.{Key, Uuid, Key}
use emovis_micro_service.Outbox.Event.{Event}
use emovis_micro_service.Outbox.Relay.Rows.{Follows}
use emovis_micro_service.Outbox.Relay.Drain.{IsUnique}
use emovis_micro_service.Store.Postgres.Database.{
  row_has_key, has_event, Row, EventRow, find_row, row_has_key, has_event, row_key,
}

has_event-Follows :
    (d : List Event) (id : Uuid) (rows rows' : List EventRow)
    → Follows d rows rows'
    → has_event id rows' ≡ has_event id rows
unfolding has_event
has_event-Follows d id [] [] f = refl
has_event-Follows d id [] (r' ∷ rows') f = absurd f
has_event-Follows d id (r ∷ rows) [] f = absurd f
has_event-Follows d id (r ∷ rows) (r' ∷ rows') (k, f) =
    ground (arith, k.event, has_event-Follows d id rows rows' f)

pub IsUnique-Follows :
    (d : List Event) (rows rows' : List EventRow)
    → Follows d rows rows'
    → IsUnique rows
    → IsUnique rows'
unfolding IsUnique
IsUnique-Follows d [] [] f u = tt
IsUnique-Follows d [] (r' ∷ rows') f u = absurd f
IsUnique-Follows d (r ∷ rows) [] f u = absurd f
IsUnique-Follows d (r ∷ rows) (r' ∷ rows') (k, f) (here, u) = (
  ap (λ e. has_event e.id rows') k.event ∙ has_event-Follows d r.event.id rows rows' f ∙ here,
  IsUnique-Follows d rows rows' f u,
)

has_event-append :
    (id : Uuid) (rows : List EventRow) (r : EventRow)
    → has_event id (rows ++ (r ∷ [])) ≡ (has_event id rows || (r.event.id == id))
unfolding has_event
has_event-append id [] r = ground arith
has_event-append id (r' ∷ rows) r = ground (arith, has_event-append id rows r)

pub IsUnique-append :
    (rows : List EventRow) (r : EventRow)
    → has_event r.event.id rows ≡ false
    → IsUnique rows
    → IsUnique (rows ++ (r ∷ []))
unfolding IsUnique has_event
IsUnique-append [] r h u = (refl, tt)
IsUnique-append (r' ∷ rows) r h (here, u) =
    (ground (arith, has_event-append r'.event.id rows r), IsUnique-append rows r (ground arith) u)

module _ {D : Type 0} where
  -- The unique constraint on the source and its reference.
  unfoldable pub HasDistinctKeys : List (Row D) → Type 0
  HasDistinctKeys [] = Unit
  HasDistinctKeys (r ∷ rows) = (find_row (row_key r) rows ≡ none) × HasDistinctKeys rows

  find_row-other :
      (k : Key) (rows : List (Row D)) (r : Row D)
      → find_row k rows ≡ none
      → row_has_key k r ≡ false
      → find_row k (rows ++ (r ∷ [])) ≡ none
  unfolding find_row
  find_row-other k [] r h other = ground arith
  find_row-other k (r' ∷ rows) r h other = ground (arith, find_row-other k rows r)

  row_has_key-swap : (r r' : Row D) → row_has_key (row_key r) r' ≡ row_has_key (row_key r') r
  unfolding row_has_key row_key
  row_has_key-swap r r' = ground (
    arith,
    text_eq_iff r.source r'.source,
    text_eq_iff r'.source r.source,
    text_eq_iff r.source_reference r'.source_reference,
    text_eq_iff r'.source_reference r.source_reference,
  )

  pub HasDistinctKeys-append :
      (rows : List (Row D)) (r : Row D)
      → find_row (row_key r) rows ≡ none
      → HasDistinctKeys rows
      → HasDistinctKeys (rows ++ (r ∷ []))
  unfolding HasDistinctKeys find_row
  HasDistinctKeys-append [] r h u = (refl, tt)
  HasDistinctKeys-append (r' ∷ rows) r h (here, u) = (
    find_row-other (row_key r') rows r here (ground (arith, row_has_key-swap r r')),
    HasDistinctKeys-append rows r (ground arith) u,
  )
