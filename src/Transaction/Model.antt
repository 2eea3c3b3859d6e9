-- ===== src/Transaction/Model.antt =====
-- internal/transaction/transaction.go and store.go: the records of the domain. `D` is the type of
-- decimals; a UUID is its 128 bits as a number.
use emovis_micro_service.Base.{
  ℕ, Text, Bool, true, false, ◌&&◌, not, ℤ, Option, none, some, text_eq, text_eq_iff, ◌↔◌, ◌≡◌,
  arith,
}
use emovis_micro_service.Base.Clock.{Time, sub}
use emovis_micro_service.Base.Json.{Fields}
use emovis_micro_service.Money.Amount.{Amount}
use emovis_micro_service.Transaction.Identity.{
  Plate, Transponder, plate_is_empty, transponder_is_empty,
}

abbrev pub Uuid : Type 0
Uuid = ℕ

pub data AssociationStatus : Type 0 where
  received resolving associated exception : AssociationStatus

pub data SettlementStatus : Type 0 where
  unpriced priced payable paid : SettlementStatus

pub record PlateRead : Type 0 where
  pub number : Text
  pub jurisdiction : Text

-- What a producer offers; an absent text is empty, and `none` stands for nil.
pub record Submission : Type 0 where
  pub source : Text
  pub source_reference : Text
  pub kind : Text
  pub occurred_at : Time
  pub plate : Option PlateRead
  pub transponder : Text
  pub base_amount : Text
  pub currency : Text
  pub location : Option Fields
  pub metadata : Option Fields

pub record Transaction (D : Type 0) : Type 0 where
  pub id : Uuid
  pub source : Text
  pub source_reference : Text
  pub kind : Text
  pub occurred_at : Time
  pub received_at : Time
  pub plate : Option Plate
  pub transponder : Option Transponder
  pub base_amount : Amount D
  pub location : Option Fields
  pub metadata : Option Fields
  pub association_status : AssociationStatus
  pub settlement_status : SettlementStatus

pub record Key : Type 0 where
  pub source : Text
  pub source_reference : Text

-- `==` on keys
unfoldable pub key_eq : Key → Key → Bool
key_eq a b = text_eq a.source b.source && text_eq a.source_reference b.source_reference

pub key_eq_iff : (a b : Key) → (key_eq a b ≡ true) ↔ (a ≡ b)
unfolding key_eq
key_eq_iff a b =
    ground (arith, text_eq_iff a.source b.source, text_eq_iff a.source_reference b.source_reference)

module _ {D : Type 0} where
  unfoldable pub has_plate : Transaction D → Bool
  has_plate t = elim t.plate [ none ↦ false | some p ↦ not (plate_is_empty p) ]

  unfoldable pub has_transponder : Transaction D → Bool
  has_transponder t = elim t.transponder [ none ↦ false | some p ↦ not (transponder_is_empty p) ]

  unfoldable pub submission_lag : Transaction D → ℤ
  submission_lag t = sub t.received_at t.occurred_at

  unfoldable pub key_of : Transaction D → Key
  key_of tx = record { source = tx.source; source_reference = tx.source_reference }

-- What a call of `Store.Ingest` did.
pub record IngestOutcome (D : Type 0) : Type 0 where
  pub transaction : Transaction D
  pub duplicate : Bool
  pub divergent : Bool
