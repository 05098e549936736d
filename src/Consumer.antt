-- ===== src/Consumer.antt =====
-- crates/consumer: what happens to an event that is taken off the queue.
pub mod World
pub mod Message
pub mod Send
pub mod Recipient
pub mod Steps
pub mod Fresh
pub mod Effects
pub mod Idempotency
pub mod Retry
pub mod Group
pub mod Rows
pub mod Delivery
