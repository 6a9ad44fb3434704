-- ===== src/Recovery/Coverage.antt =====
-- src/scryntic/recovery/coverage.py: the coverage ledger of one supervised stream.
pub mod Contracts
pub mod Query
pub mod Ledger
pub mod Observe
pub mod Repair
pub mod Book
pub mod Calls
