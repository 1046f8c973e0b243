-- ===== src/Admission.antt =====
-- call_admission.py: provider-turn ceilings and their durable accounting.
pub mod Policy
pub mod Ledger
pub mod Ceilings
pub mod Extension
pub mod History
mod Examples
