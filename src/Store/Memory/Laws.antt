-- ===== src/Store/Memory/Laws.antt =====
-- The store in memory: its invariant and its lookups.
use emovis_micro_service.Base.{
  ◌⊎◌, ◌+◌, true, false, text_eq_iff, List, [], ◌∷◌, none, some, Result, ok, err, ◌≡◌, ◌≢◌, ◌↔◌,
  refl, arith, if◌then◌else◌, inl, inr, Option-cases,
}
use emovis_micro_service.Base.Maps.{get, get-put, length-put_new}
use emovis_micro_service.Platform.{Platform}
use emovis_micro_service.Transaction.Model.{
  Key, key_eq, key_eq_iff, key_of, Transaction, IngestOutcome,
}
use emovis_micro_service.Transaction.Fingerprint.{fingerprint}
use emovis_micro_service.Store.Memory.{
  LookupError, not_found, Store, new, get_transaction, len, ingest, ingest_all,
}

module _ {D : Type 0} (platform : Platform D) where
  -- The fingerprint of a key is that of the transaction under it, and no other key has one.
  pub record IsConsistent (s : Store D) : Type 0 where
    pub agree :
        (k : Key)
        → get key_eq k s.fingerprints
          ≡ elim (get key_eq k s.by_key) [ none ↦ none | some tx ↦ some (fingerprint platform tx) ]

  pub new-IsConsistent : IsConsistent new
  unfolding get
  new-IsConsistent = record { agree = λ k. refl }

  pub ingest-IsConsistent :
      (s : Store D) (tx : Transaction D) → IsConsistent s → IsConsistent (ingest platform s tx).0
  unfolding ingest
  ingest-IsConsistent s tx h = record {
    agree = λ k. ground (
      arith,
      h.agree k,
      get-put key_eq key_eq_iff (key_of tx) k tx s.by_key,
      get-put key_eq key_eq_iff (key_of tx) k (fingerprint platform tx) s.fingerprints,
    );
  }

  -- What a call does, as a client of the store sees it: under a new key the transaction is recorded
  -- and returned; under a known key nothing changes, the stored transaction is returned, and the call
  -- is divergent exactly if the fingerprints of the two differ.
  abbrev pub Promised : Store D → Transaction D → Store D × IngestOutcome D → Type 0
  Promised s tx (s', o) =
      ((get key_eq (key_of tx) s.by_key ≡ none)
        × (o.transaction ≡ tx)
        × (o.duplicate ≡ false)
        × (o.divergent ≡ false)
        × (len s' ≡ len s + 1)
        × ((k : Key)
            → get_transaction s' k ≡ (if key_eq (key_of tx) k then ok tx else get_transaction s k)))
      ⊎ ((get key_eq (key_of tx) s.by_key ≡ some o.transaction)
          × (s' ≡ s)
          × (o.duplicate ≡ true)
          × ((o.divergent ≡ true) ↔ (fingerprint platform o.transaction ≢ fingerprint platform tx)))

  pub ingest-Promised :
      (s : Store D) (tx : Transaction D) → IsConsistent s → Promised s tx (ingest platform s tx)
  unfolding ingest get_transaction len
  ingest-Promised s tx h = elim (Option-cases (get key_eq (key_of tx) s.by_key)) [
    | inl fresh ↦
        rw (fresh, ingest)
          (inl (
            refl,
            refl,
            refl,
            refl,
            length-put_new key_eq key_eq_iff (key_of tx) tx s.by_key fresh,
            λ k. ground (arith, get-put key_eq key_eq_iff (key_of tx) k tx s.by_key),
          ))
    | inr (old, known) ↦
        rw (known, ingest)
          (inr (
            refl,
            refl,
            refl,
            ground (
              arith,
              h.agree (key_of tx),
              text_eq_iff (fingerprint platform old) (fingerprint platform tx),
            ),
          ))
  ]

  -- The first transaction of a list with this key.
  abbrev pub first_with_key : Key → List (Transaction D) → Result LookupError (Transaction D)
  first_with_key k [] = err not_found
  first_with_key k (tx ∷ txs) = if key_eq (key_of tx) k then ok tx else first_with_key k txs

  -- A result, or another where nothing was found.
  abbrev pub or_else :
      Result LookupError (Transaction D)
      → Result LookupError (Transaction D)
      → Result LookupError (Transaction D)
  or_else (ok tx) r = ok tx
  or_else (err e) r = r

  get_transaction-ingest :
      (s : Store D) (tx : Transaction D) (k : Key)
      → get_transaction (ingest platform s tx).0 k
        ≡ or_else (get_transaction s k) (if key_eq (key_of tx) k then ok tx else err not_found)
  unfolding get_transaction ingest
  get_transaction-ingest s tx k =
      ground (arith, get-put key_eq key_eq_iff (key_of tx) k tx s.by_key, key_eq_iff (key_of tx) k)

  get_transaction-ingest_all :
      (s : Store D) (txs : List (Transaction D)) (k : Key)
      → get_transaction (ingest_all platform s txs) k
        ≡ or_else (get_transaction s k) (first_with_key k txs)
  unfolding ingest_all
  get_transaction-ingest_all s [] k = ground arith
  get_transaction-ingest_all s (tx ∷ txs) k = ground (
    arith,
    get_transaction-ingest s tx k,
    get_transaction-ingest_all (ingest platform s tx).0 txs k,
  )

  -- Whatever is pushed in whatever order, a key holds the first transaction pushed under it.
  pub ingest_all-first :
      (txs : List (Transaction D)) (k : Key)
      → get_transaction (ingest_all platform new txs) k ≡ first_with_key k txs
  unfolding get_transaction get
  ingest_all-first txs k = get_transaction-ingest_all new txs k
