-- ===== src/Store.antt =====
-- internal/store: the two implementations of `transaction.Store`.
pub mod Interface
pub mod Memory
pub mod Postgres
