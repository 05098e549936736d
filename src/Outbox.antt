-- ===== src/Outbox.antt =====
-- crates/outbox: the worker that moves the events of the table `outbox` to the message broker.
pub mod Rows
pub mod Event
pub mod Worker
pub mod Invariant
pub mod Runs
pub mod Order
pub mod Batch
