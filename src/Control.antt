-- ===== src/Control.antt =====
-- The commands of the operator (broker_control.py).
pub mod Request
pub mod Decide
pub mod Handle
pub mod Registry
pub mod Awaits
pub mod Receipts
pub mod Replayed
mod Examples
