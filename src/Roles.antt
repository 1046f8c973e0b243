-- ===== src/Roles.antt =====
-- Worker identities and their read-only contracts (role_registry.py, role_contracts.py).
pub mod Identity
pub mod Contracts
pub mod Separation
mod Examples
