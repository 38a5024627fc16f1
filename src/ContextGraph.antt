-- ===== src/ContextGraph.antt =====
-- The structural part of astrcontinuum/context_graph.
pub mod Closure
pub mod Indexes
pub mod Groups
pub mod Partition
pub mod Links
pub mod Components
pub mod Alike
pub mod Absorb
pub mod Closed
pub mod Chosen
pub mod Selected
