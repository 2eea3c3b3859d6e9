-- ===== src/Outbox.antt =====
-- internal/outbox: the transactional outbox and its relay.
pub mod Body
pub mod Event
pub mod Publisher
pub mod Backoff
pub mod Relay
pub mod Loop
