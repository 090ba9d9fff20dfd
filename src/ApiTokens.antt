-- ===== src/ApiTokens.antt =====
-- The tokens of the read-only API: panel/api_tokens.py and panel/routes_api_tokens.py. `Access`
-- proves.
pub mod Store
pub mod Bearer
pub mod Routes
mod Access
mod Tests
