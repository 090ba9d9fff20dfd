-- ===== src/Vault.antt =====
-- The secret vault, agent/secret_vault.py and agent/vault_agent.py.
pub mod Store
mod Names
mod Listed
pub mod Refined
mod Tests
