-- ===== src/Budget.antt =====
-- The budgets of provider usage (budgeting.py), and the guardrails of assignments (broker.py).
pub mod Amount
pub mod Policy
pub mod Order
pub mod Effective
pub mod Guardrail
pub mod Crossed
mod Examples
