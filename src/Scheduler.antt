-- ===== src/Scheduler.antt =====
-- Scheduled tasks: the agent that runs them (agent/scheduler_agent.py) and the routes that keep
-- them (panel/routes_schedules.py). `Timing` and `Effects` prove.
pub mod Store
pub mod Calendar
pub mod Run
pub mod Routes
mod Timing
mod Effects
mod Outcomes
mod Validity
mod Tests
