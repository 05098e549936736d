-- ===== src/Store.antt =====
-- crates/store/src/notification_log.rs: the delivery log (`EmailNotificationStore`).
pub mod Table
pub mod Log
pub mod Invariant
pub mod Keys
pub mod Hits
pub mod Compensation
pub mod BlockList
pub mod Queries
pub mod Transitions
