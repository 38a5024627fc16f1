-- ===== src/Storage/Journal.antt =====
-- The Journal of astrcontinuum/storage/repository.py and the token metrics it records
-- (astrcontinuum/storage/token_metrics.py).
pub mod Tables
pub mod Capture
pub mod View
pub mod Facts
pub mod Effects
pub mod Append
pub mod Gapless
pub mod Replay
pub mod Numbers
pub mod Session
