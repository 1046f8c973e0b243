-- ===== src/Dispatch.antt =====
-- The frames of a connected worker, and their dispatch: `handle_message` (broker.py).
pub mod Message
pub mod Fenced
pub mod Connect
mod Examples
