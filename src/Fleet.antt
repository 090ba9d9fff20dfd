-- ===== src/Fleet.antt =====
-- Fleet orchestration: panel/routes_fleet.py. `Inbound` is the machine endpoint that another panel
-- calls; `Nodes`, `Outbound` and `Admin` are the administrator's side. `Once`, `Replay`, `Scope` and
-- `Revoked` prove.
pub mod Store
pub mod Inbound
pub mod Nodes
pub mod Outbound
pub mod Admin
pub mod Once
pub mod Replay
mod Scope
mod Revoked
mod Tests
