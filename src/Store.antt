-- ===== src/Store.antt =====
-- broker_store.py: the broker's database and the writes that every handler shares.
pub mod Rows
pub mod Writes
pub mod Events
pub mod Samples
mod Examples
