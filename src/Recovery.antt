-- ===== src/Recovery.antt =====
-- src/scryntic/recovery: the shared source budget, the coverage ledger of a stream, and the
-- supervisor of a source.
pub mod Budget
pub mod Coverage
pub mod Supervisor
