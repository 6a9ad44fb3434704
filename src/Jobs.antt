-- ===== src/Jobs.antt =====
-- src/scryntic/jobs
pub mod Records
pub mod Store
