-- ===== src/Research/Targets.antt =====
-- src/scryntic/research/targets.py
pub mod Series
pub mod Record
pub mod Resample
pub mod Origin
pub mod Usable
pub mod Sound
pub mod Matured
pub mod Partition
