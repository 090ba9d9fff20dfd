-- ===== src/MailRules.antt =====
-- The mail rules that agent/mail_sieve.py writes as Sieve scripts.
pub mod Quote
pub mod Rules
pub mod Script
pub mod Lexer
pub mod Meaning
pub mod Reading
pub mod Lines
pub mod Blocks
mod Sections
pub mod Scripts
pub mod Sync
pub mod Installed
mod Tests
