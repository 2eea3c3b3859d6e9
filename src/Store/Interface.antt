-- ===== src/Store/Interface.antt =====
-- internal/transaction/store.go: the contract of `transaction.Store`. `S` is the state of the store
-- with whatever decides whether its next call fails.
use emovis_micro_service.Base.{
  Text, true, false, Option, none, some, Result, ok, err, ◌≡◌, ◌≢◌, ◌↔◌, ◌⊎◌, if◌then◌else◌,
}
use emovis_micro_service.Platform.{Platform}
use emovis_micro_service.Transaction.Model.{Key, key_eq, key_of, Transaction, IngestOutcome}
use emovis_micro_service.Transaction.Fingerprint.{fingerprint}

-- `stored` is the record under a key, with the fingerprint that it was accepted with, and `as_stored`
-- what a transaction reads as once it is stored.
pub record StoreApi (S D : Type 0) : Type 0 where
  pub ingest : S → Transaction D → S × Result Text (IngestOutcome D)
  pub as_stored : Transaction D → Transaction D
  pub stored : S → Key → Option (Transaction D × Text)

module _ {S D : Type 0} (platform : Platform D) (api : StoreApi S D) where
  -- The transaction is recorded under its key, and no other record changes.
  abbrev pub Recorded : S → Transaction D → S → Type 0
  Recorded s tx s' =
      (api.stored s (key_of tx) ≡ none)
      × ((k : Key)
          → api.stored s' k ≡ (
              if key_eq (key_of tx) k
              then some (api.as_stored tx, fingerprint platform tx)
              else api.stored s k))

  abbrev pub Unchanged : S → S → Type 0
  Unchanged s s' = (k : Key) → api.stored s' k ≡ api.stored s k

  -- The key is known: the stored transaction is returned.
  abbrev pub Replayed : S → Transaction D → IngestOutcome D → Type 0
  Replayed s tx o =
      (digest : Text) × (api.stored s (key_of tx) ≡ some (o.transaction, digest))
      × (o.duplicate ≡ true)
      × ((o.divergent ≡ true) ↔ (digest ≢ fingerprint platform tx))

  -- What a call may have done. A call that fails may still have recorded a new transaction, where
  -- the database commits it and the answer is lost.
  abbrev pub Ingested : S → Transaction D → S × Result Text (IngestOutcome D) → Type 0
  Ingested s tx (s', ok o) =
      ((o ≡ record { transaction = tx; duplicate = false; divergent = false }) × Recorded s tx s')
      ⊎ (Replayed s tx o × Unchanged s s')
  Ingested s tx (s', err e) = Unchanged s s' ⊎ Recorded s tx s'

  -- The contract, for the states that the store can be in and the transactions that it is given.
  pub record IsStore (IsValid : S → Type 0) (Fits : Transaction D → Type 0) : Type 0 where
    pub same_id : (tx : Transaction D) → (api.as_stored tx).id ≡ tx.id
    pub keeps : (s : S) (tx : Transaction D) → IsValid s → Fits tx → IsValid (api.ingest s tx).0
    pub ingested :
        (s : S) (tx : Transaction D) → IsValid s → Fits tx → Ingested s tx (api.ingest s tx)
