-- ===== src/Runtime/Budget.antt =====
-- astrcontinuum/runtime/budget.py: a request's projection within its input budget.
pub mod Order
pub mod Select
pub mod Emergency
pub mod Assemble
pub mod Bounds
pub mod Steps
pub mod Required
pub mod Rounds
pub mod Kept
pub mod Errors
pub mod Ends
