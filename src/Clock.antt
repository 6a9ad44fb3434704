-- ===== src/Clock.antt =====
-- src/scryntic/clock: the policy over clock samples, and the monitor that takes them.
pub mod Contracts
pub mod Policy
pub mod Evidence
pub mod Monitor
