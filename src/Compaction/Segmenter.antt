-- ===== src/Compaction/Segmenter.antt =====
-- astrcontinuum/compaction/segmenter.py, with its types of compaction/types.py: a stable history is
-- cut into segments that keep each durable unit whole.
pub mod Pack
pub mod Closed
pub mod Cover
pub mod Limits
