-- ===== src/HttpApi.antt =====
-- internal/httpapi: the HTTP surface.
pub mod ApiError
pub mod Request
pub mod Reply
pub mod Mapping
pub mod Ingest
pub mod Telemetry
pub mod Contract
pub mod Middleware
pub mod Server
