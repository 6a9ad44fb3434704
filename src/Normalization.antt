-- ===== src/Normalization.antt =====
-- src/scryntic/normalization: the reading of the next raw record.
pub mod Runner
