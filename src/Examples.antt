-- ===== src/Examples.antt =====
-- The theorems at concrete requests, rows and settings.
pub mod World
mod Requests
mod Stored
mod Relayed
mod Histories
mod Served
mod Promised
mod Looped
mod Domain
mod Edges
mod Processes
