-- ===== src/Store/Memory/Contract.antt =====
-- The store in memory against the contract of `transaction.Store`.
use emovis_micro_service.Base.{
  Text, text_eq_iff, Option, none, some, Result, ok, refl, arith, inl, inr, Option-cases,
}
use emovis_micro_service.Base.Maps.{get, get-put}
use emovis_micro_service.Platform.{Platform}
use emovis_micro_service.Transaction.Model.{
  Key, key_eq, key_eq_iff, key_of, Transaction, IngestOutcome,
}
use emovis_micro_service.Transaction.Fingerprint.{fingerprint}
use emovis_micro_service.Store.Interface.{StoreApi, IsStore, Ingested}
use emovis_micro_service.Store.Memory.{Store, or_empty, ingest}
use emovis_micro_service.Store.Memory.Laws.{IsConsistent, ingest-IsConsistent}

module _ {D : Type 0} (platform : Platform D) where
  -- The record and the fingerprint of a key.
  unfoldable pub stored : Store D → Key → Option (Transaction D × Text)
  stored s k = elim (get key_eq k s.by_key) [
    | none ↦ none
    | some tx ↦ some (tx, or_empty (get key_eq k s.fingerprints))
  ]

  -- A call of this store does not fail.
  abbrev never_fails : Store D × IngestOutcome D → Store D × Result Text (IngestOutcome D)
  never_fails (s, o) = (s, ok o)

  abbrev pub memory_api : StoreApi (Store D) D
  memory_api = record {
    ingest = λ s tx. never_fails (ingest platform s tx);
    as_stored = λ tx. tx;
    stored = stored;
  }

  ingest-Ingested :
      (s : Store D) (tx : Transaction D)
      → IsConsistent platform s
      → Ingested platform memory_api s tx (never_fails (ingest platform s tx))
  unfolding ingest stored
  ingest-Ingested s tx h = elim (Option-cases (get key_eq (key_of tx) s.by_key)) [
    | inl fresh ↦
        rw (fresh, ingest)
          (inl (
            refl,
            (
              ground arith,
              λ k. ground (
                arith,
                get-put key_eq key_eq_iff (key_of tx) k tx s.by_key,
                get-put key_eq key_eq_iff (key_of tx) k (fingerprint platform tx) s.fingerprints,
              ),
            ),
          ))
    | inr (old, known) ↦
        rw (known, ingest)
          (inr (
            (
              or_empty (get key_eq (key_of tx) s.fingerprints),
              ground arith,
              refl,
              ground (
                arith,
                text_eq_iff (or_empty (get key_eq (key_of tx) s.fingerprints))
                    (fingerprint platform tx),
              ),
            ),
            λ k. refl,
          ))
  ]

  -- Every transaction that is not stored is recorded, every other is answered by the stored one, and
  -- no call fails.
  pub memory_api-IsStore : IsStore platform memory_api (IsConsistent platform) (λ tx. Unit)
  memory_api-IsStore = record {
    same_id = λ tx. refl;
    keeps = λ s tx v f. ingest-IsConsistent platform s tx v;
    ingested = λ s tx v f. ingest-Ingested s tx v;
  }
