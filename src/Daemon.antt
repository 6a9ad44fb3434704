-- ===== src/Daemon.antt =====
-- src/scryntic/daemon
pub mod Health
