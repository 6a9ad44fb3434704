-- ===== src/Clock/Contracts.antt =====
-- src/scryntic/application/clock.py and src/scryntic/configuration/clock.py. A number that
-- `__post_init__` holds to be at least 0 is an ℕ.
use scryntic.Prelude.{ℕ, String, Bool, Option, ◌^◌, ◌-◌, ◌<◌, ◌≤◌}
use scryntic.Prelude.Int.{ℤ, abs}

pub record ClockLimits : Type 0 where
  pub max_offset_ns : ℕ
  pub max_uncertainty_ns : ℕ
  pub max_evidence_age_ns : ℕ
  pub max_step_ns : ℕ
  pub max_sample_gap_ns : ℕ
  pub holdover_drift_ppb : ℕ

abbrev pub billion : ℕ
billion = 1_000_000_000

abbrev pub max_int64 : ℕ
max_int64 = 2 ^ 63 - 1

-- `ClockLimits()`
abbrev pub default_limits : ClockLimits
default_limits = record {
  max_offset_ns = 50_000_000;
  max_uncertainty_ns = 100_000_000;
  max_evidence_age_ns = 120_000_000_000;
  max_step_ns = 50_000_000;
  max_sample_gap_ns = 30_000_000_000;
  holdover_drift_ppb = 500_000;
}

-- What `ClockLimits.__post_init__` accepts.
pub record LimitsAreValid (limits : ClockLimits) : Type 0 where
  pub age_positive : 0 < limits.max_evidence_age_ns
  pub step_positive : 0 < limits.max_step_ns
  pub gap_positive : 0 < limits.max_sample_gap_ns
  pub drift_bounded : limits.holdover_drift_ppb < billion
  pub offset_fits : limits.max_offset_ns ≤ max_int64
  pub uncertainty_fits : limits.max_uncertainty_ns ≤ max_int64
  pub age_fits : limits.max_evidence_age_ns ≤ max_int64
  pub step_fits : limits.max_step_ns ≤ max_int64
  pub gap_fits : limits.max_sample_gap_ns ≤ max_int64

pub record ClockReading : Type 0 where
  pub wall_time_ns : ℤ
  pub monotonic_ns : ℕ
  pub boottime_ns : Option ℕ
  pub session_id : String
  pub capture_uncertainty_ns : ℕ

pub record SyncEvidence : Type 0 where
  pub reference_time_ns : ℕ
  pub offset_ns : ℤ
  pub uncertainty_ns : ℕ
  pub synchronized : Bool

-- `SyncEvidence.__post_init__`: "Clock uncertainty must include the offset".
abbrev pub EvidenceIsValid : SyncEvidence → Type 0
EvidenceIsValid evidence = abs evidence.offset_ns ≤ evidence.uncertainty_ns
