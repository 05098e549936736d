-- ===== src/Common.antt =====
-- crates/common: the types that every crate of the workspace shares, and e-mail validation.
pub mod Error
pub mod Status
pub mod Json
pub mod Event
pub mod Email
pub mod Amqp
pub mod RoundTrip
pub mod Attachment
