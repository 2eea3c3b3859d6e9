-- ===== src/Store/Memory.antt =====
-- internal/store/memory/memory.go: the store in process memory. `Ingest` holds the lock for the
-- whole check and insertion, so that a call is one step on the two maps, which are the state.
pub mod Laws
pub mod Contract
use emovis_micro_service.Base.{
  ◌∷◌, ℕ, Text, true, false, not, text_eq, List, [], Option, none, some, length, Result, ok, err,
}
use emovis_micro_service.Base.Maps.{get, put}
use emovis_micro_service.Platform.{Platform}
use emovis_micro_service.Transaction.Model.{Key, key_eq, key_of, Transaction, IngestOutcome}
use emovis_micro_service.Transaction.Fingerprint.{fingerprint}

pub record Store (D : Type 0) : Type 0 where
  pub by_key : List (Key × Transaction D)
  pub fingerprints : List (Key × Text)

-- `transaction.ErrNotFound`
pub data LookupError : Type 0 where
  not_found : LookupError

-- A key that a map of texts lacks reads as the empty text.
abbrev pub or_empty : Option Text → Text
or_empty none = []
or_empty (some s) = s

module _ {D : Type 0} where
  abbrev pub new : Store D
  new = record { by_key = []; fingerprints = [] }

  -- `Get`
  unfoldable pub get_transaction : Store D → Key → Result LookupError (Transaction D)
  get_transaction s key = elim (get key_eq key s.by_key) [ none ↦ err not_found | some tx ↦ ok tx ]

  -- `Len`
  unfoldable pub len : Store D → ℕ
  len s = length s.by_key

module _ {D : Type 0} (platform : Platform D) where
  unfoldable pub ingest : Store D → Transaction D → Store D × IngestOutcome D
  ingest s tx =
      let key = key_of tx in
      let digest = fingerprint platform tx in
      elim (get key_eq key s.by_key) [
        | some existing ↦ (
          s,
          record {
            transaction = existing;
            duplicate = true;
            divergent = not (text_eq (or_empty (get key_eq key s.fingerprints)) digest);
          },
        )
        | none ↦ (
          record {
            by_key = put key_eq key tx s.by_key;
            fingerprints = put key_eq key digest s.fingerprints;
          },
          record { transaction = tx; duplicate = false; divergent = false },
        )
      ]

  -- A sequence of calls, in the order in which they get the lock.
  unfoldable pub ingest_all : Store D → List (Transaction D) → Store D
  ingest_all s [] = s
  ingest_all s (tx ∷ txs) = ingest_all (ingest s tx).0 txs
