-- ===== src/Tests.antt =====
-- The theorems at concrete inputs, and runs of the definitions.
mod History
mod ToolLoop
mod Segmenter
mod Jobs
mod Journal
mod Budget
mod Intent
mod Closure
mod Projection
