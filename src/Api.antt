-- ===== src/Api.antt =====
-- crates/api: the handlers of the HTTP API that retry a delivery, and their publisher.
pub mod Publisher
pub mod Replay
pub mod Retry
