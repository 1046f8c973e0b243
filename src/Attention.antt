-- ===== src/Attention.antt =====
-- worker_attention.py and broker_attention.py: typed attention, settlements and the one-shot reminder
-- for a missing report.
pub mod Validate
pub mod Rows
pub mod Handlers
pub mod Inversion
pub mod OneShot
pub mod Transactions
pub mod Frames
pub mod Reminders
pub mod Settlement
pub mod History
pub mod Turns
mod Examples
