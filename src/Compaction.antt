-- ===== src/Compaction.antt =====
-- The background compaction of astrcontinuum/compaction.
pub mod Segmenter
