-- ===== src/Specialists.antt =====
-- Whether a specialist runs in a round (specialist_activation.py), and the retained decisions
-- (broker_store.py).
pub mod Paths
pub mod Decide
pub mod Forced
pub mod Skipped
pub mod Activation
pub mod Immutable
mod Examples
