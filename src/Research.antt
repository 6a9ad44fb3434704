-- ===== src/Research.antt =====
-- src/scryntic/research
pub mod Targets
