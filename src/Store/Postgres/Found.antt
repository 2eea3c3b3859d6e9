-- ===== src/Store/Postgres/Found.antt =====
-- The records that the store is seen to hold, and the rows of its table.
use mathlib.Core.List.{Memᴰ}
use mathlib.Core.Path.{subst}
use emovis_micro_service.Base.{
  Text, List, [], ◌∷◌, some, ok, ◌≡◌, sym, arith, Bool-cases, Option-cases, Result-cases, inl, inr,
}
use emovis_micro_service.Base.Members.{map-Memᴰ}
use emovis_micro_service.Platform.{Platform}
use emovis_micro_service.Money.Currency
use emovis_micro_service.Money.Amount.{parse}
use emovis_micro_service.Transaction.Model.{Key, Transaction}
use emovis_micro_service.Store.Postgres.Database.{Row, Server, find_row, row_has_key}
use emovis_micro_service.Store.Postgres.{transaction_from, read_amount, read_currency, read_row}
use emovis_micro_service.Store.Postgres.Pairing.{row_ids}
use emovis_micro_service.Store.Postgres.Contract.{Session, stored}

find_row-Memᴰ :
    {D : Type 0} (k : Key) (rows : List (Row D)) (row : Row D)
    → find_row k rows ≡ some row
    → Memᴰ row rows
unfolding find_row
find_row-Memᴰ k [] row h = absurd (ground arith)
find_row-Memᴰ k (r ∷ rows) row h = elim (Bool-cases (row_has_key k r)) [
  | inl same ↦ let e : r ≡ row = ground arith in Memᴰ.head (sym e)
  | inr other ↦ Memᴰ.tail (find_row-Memᴰ k rows row (rw other at h))
]

module _ {D : Type 0} (platform : Platform D) (server : Server D) where
  read_row-id :
      (row : Row D) (tx : Transaction D) (digest : Text)
      → read_row platform row ≡ ok (tx, digest)
      → tx.id ≡ row.id
  unfolding read_row read_currency read_amount transaction_from
  read_row-id row tx digest h = elim (Option-cases (Currency.lookup platform.tables row.currency)) [
    | inl unknown ↦ absurd (ground arith)
    | inr (c, known) ↦ elim (Result-cases (parse platform.decimal row.base_amount_text c)) [
      | inr (e, bad) ↦ absurd (ground arith)
      | inl (amount, good) ↦ ground arith
    ]
  ]

  pub stored-Memᴰ :
      (s : Session D) (k : Key) (tx : Transaction D) (digest : Text)
      → stored platform server s k ≡ some (tx, digest)
      → Memᴰ tx.id (row_ids s.tables)
  unfolding stored
  stored-Memᴰ s k tx digest h = elim (Option-cases (find_row k s.tables.transactions)) [
    | inl free ↦ absurd (ground arith)
    | inr (row, found) ↦ elim (Result-cases (read_row platform row)) [
      | inr (cause, bad) ↦ absurd (ground arith)
      | inl (p, good) ↦
          let same : p ≡ (tx, digest) = ground arith in
          let e = read_row-id row tx digest (subst (λ q. read_row platform row ≡ ok q) same good) in
          subst (λ i. Memᴰ i (row_ids s.tables)) (sym e)
            (map-Memᴰ (λ r. r.id) row s.tables.transactions
              (find_row-Memᴰ k s.tables.transactions row found))
    ]
  ]
