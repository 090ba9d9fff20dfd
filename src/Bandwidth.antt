-- ===== src/Bandwidth.antt =====
-- The bytes that a site has sent in a month, of agent/bandwidth_accounting.py.
pub mod Log
pub mod Account
mod Scanned
mod Watch
mod Moves
mod Exact
pub mod Counted
mod Tests
