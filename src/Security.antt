-- ===== src/Security.antt =====
-- Sign-in and the guards of every route: panel/security.py and the login view of
-- panel/routes_auth.py. `Store` has the session, the tables and the cryptography that the code
-- calls; the other modules follow the functions of the source.
pub mod Store
pub mod Totp
pub mod Credentials
pub mod StepUp
pub mod Guards
mod Granted
pub mod Csrf
pub mod Login
pub mod Mutation
pub mod Forgery
pub mod Brake
pub mod Workers
mod Tests
