-- ===== src/Runtime/ToolLoop.antt =====
-- astrcontinuum/runtime/tool_loop.py: the durable tool protocol.
pub mod Fingerprint
pub mod Parse
pub mod Units
pub mod Balance
pub mod Shape
