-- ===== src/Storage/Jobs.antt =====
-- The compaction jobs of astrcontinuum/storage/repository.py.
pub mod Changes
pub mod Lookup
pub mod Worker
pub mod Queue
pub mod Table
pub mod Single
pub mod Valid
pub mod Rewritten
pub mod Live
pub mod Checks
pub mod Lease
pub mod Fence
pub mod First
pub mod Claim
pub mod Sweep
pub mod Recover
pub mod Turned
pub mod Due
pub mod Moved
pub mod Eligible
pub mod Intent
