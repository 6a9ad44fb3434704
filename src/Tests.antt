-- ===== src/Tests.antt =====
-- The theorems at concrete inputs.
pub mod Clock
pub mod Data
pub mod Jobs
pub mod Intake
pub mod Supervisor
pub mod Coverage
pub mod Calls
pub mod Budget
pub mod Daemon
pub mod Research
