-- ===== src/Protocol.antt =====
-- The validation of reports (protocol.py).
pub mod Texts
pub mod Body
pub mod Report
pub mod Claims
pub mod Identity
mod Examples
