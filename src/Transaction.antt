-- ===== src/Transaction.antt =====
-- internal/transaction: the domain.
pub mod Identity
pub mod Types
pub mod Model
pub mod Fields
pub mod Fingerprint
pub mod Validate
