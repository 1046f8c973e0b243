-- ===== src/Continuation.antt =====
-- How many repair rounds a run may take (continuation.py).
pub mod Policy
pub mod Limit
pub mod Rounds
mod Examples
