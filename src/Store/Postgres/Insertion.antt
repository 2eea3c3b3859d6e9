-- ===== src/Store/Postgres/Insertion.antt =====
-- What the insertion of a transaction does to the tables.
use emovis_micro_service.Base.{[], ◌∷◌, ◌++◌, none, some, ok, ◌≡◌, inl, inr, arith, Option-cases}
use emovis_micro_service.Platform.{Platform}
use emovis_micro_service.Transaction.Model.{Uuid, key_of, Transaction}
use emovis_micro_service.Transaction.Fingerprint.{fingerprint}
use emovis_micro_service.Store.Postgres.Database.{
  checked_insert, row_key, Row, Tables, Server, insert_transaction, stored_row, find_row,
}
use emovis_micro_service.Store.Postgres.{row_of}

module _ {D : Type 0} (platform : Platform D) (server : Server D) where
  -- The row of a transaction as it stands in the table.
  abbrev pub kept_row : Transaction D → D → Row D
  kept_row tx column = stored_row server (row_of platform tx (fingerprint platform tx)) column

  checked_insert-row :
      (t : Tables D) (row : Row D) (id : Uuid) (t' : Tables D)
      → checked_insert server t row ≡ ok (some id, t')
      → (find_row (row_key row) t.transactions ≡ none)
        × (t' ≡ record t { transactions = t.transactions ++ (row ∷ []) })
  unfolding checked_insert
  checked_insert-row t row id t' h = ground arith

  insert-row :
      (t : Tables D) (row : Row D) (id : Uuid) (t' : Tables D)
      → insert_transaction server t row ≡ ok (some id, t')
      → (column : D) × (find_row (row_key row) t.transactions ≡ none)
        × (t' ≡ record t { transactions = t.transactions ++ (stored_row server row column ∷ []) })
  unfolding insert_transaction row_key stored_row
  insert-row t row id t' h = elim (Option-cases (server.store_numeric row.base_amount)) [
    | inl none_fits ↦ absurd (ground arith)
    | inr (column, fits) ↦
        let (free, e) =
          checked_insert-row t (stored_row server row column) id t'
            (rw (fits, insert_transaction) at h) in
        (column, free, e)
  ]

  checked_insert-same :
      (t : Tables D) (row : Row D) (t' : Tables D)
      → checked_insert server t row ≡ ok (none, t')
      → t' ≡ t
  unfolding checked_insert
  checked_insert-same t row t' h = ground arith

  pub insert-same :
      (t : Tables D) (row : Row D) (t' : Tables D)
      → insert_transaction server t row ≡ ok (none, t')
      → t' ≡ t
  unfolding insert_transaction
  insert-same t row t' h = elim (Option-cases (server.store_numeric row.base_amount)) [
    | inl none_fits ↦ absurd (ground arith)
    | inr (column, fits) ↦
        checked_insert-same t (stored_row server row column) t' (rw (fits, insert_transaction) at h)
  ]

  pub insert_transaction-row :
      (t : Tables D) (tx : Transaction D) (id : Uuid) (t' : Tables D)
      → insert_transaction server t (row_of platform tx (fingerprint platform tx))
        ≡ ok (some id, t')
      → (column : D) × (find_row (key_of tx) t.transactions ≡ none)
        × (t' ≡ record t { transactions = t.transactions ++ (kept_row tx column ∷ []) })
  unfolding row_of key_of row_key
  insert_transaction-row t tx id t' h =
      insert-row t (row_of platform tx (fingerprint platform tx)) id t' h
