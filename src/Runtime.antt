-- ===== src/Runtime.antt =====
-- The request-side runtime of astrcontinuum/runtime.
pub mod ToolLoop
pub mod Candidate
pub mod Budget
pub mod Projection
pub mod ReadView
