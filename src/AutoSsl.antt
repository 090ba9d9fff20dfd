-- ===== src/AutoSsl.antt =====
-- The automatic certificates of agent/autossl_scheduler.py.
pub mod Store
pub mod Preflight
pub mod Check
pub mod Pass
mod Ready
pub mod Permitted
pub mod Agreement
mod Tests
