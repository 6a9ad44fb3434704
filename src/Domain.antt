-- ===== src/Domain.antt =====
-- src/scryntic/domain: the contracts that all parts share.
pub mod Validation
pub mod Time
pub mod Identity
pub mod Raw
pub mod Equality
