-- ===== src/Lifecycle.antt =====
-- Server maintenance with a preview first: panel/routes_server_lifecycle.py. `Preview` makes and
-- lists previews, `Apply` applies and cancels them, `Reviewed`, `Marked`, `Answers` and `Final`
-- prove.
pub mod Store
pub mod Preview
pub mod Apply
mod Reviewed
mod Marked
mod Answers
mod Final
mod Tests
