-- ===== src/Workflow.antt =====
-- Assignments and the context that goes with them (broker.py, broker_workflow.py).
pub mod Deliver
pub mod Assign
pub mod Review
pub mod Route
pub mod Routing
pub mod Verdict
pub mod Accept
pub mod Start
pub mod Recover
pub mod InDoubt
pub mod StartedOnce
pub mod Accepting
pub mod Once
pub mod Known
pub mod Replayed
pub mod Remembered
pub mod Uncertain
pub mod RepairRounds
pub mod Untouched
pub mod ReviewedOnce
mod Examples
mod Reports
