-- ===== src/Storage.antt =====
-- The durable store of astrcontinuum/storage.
pub mod Rows
pub mod Schema
pub mod Envelope
pub mod Jobs
pub mod Journal
