-- ===== src/Mailer.antt =====
-- crates/mailer: fetching attachments, and the two senders.
pub mod Fetcher
pub mod Webhook
pub mod Smtp
