-- ===== src/DynamicDns.antt =====
-- Dynamic DNS: panel/routes_dynamic_dns.py. `Rules` has the checks on its inputs, `Records` the
-- routes of the owner, `Update` the route that a device calls with its token; `Zone` and `Token`
-- prove.
pub mod Store
pub mod Rules
pub mod Records
pub mod Update
mod Zone
mod Managed
mod Token
mod Tests
