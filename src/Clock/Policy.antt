-- ===== src/Clock/Policy.antt =====
-- src/scryntic/clock/policy.py
pub mod Sound
use scryntic.Prelude.{ℕ, ◌+◌, ◌*◌, ◌/◌, Bool, false, ◌||◌, Option, none, some, ltb, if◌then◌else◌}
use scryntic.Prelude.Int.{ℤ, pos, abs, ◌+ℤ◌, ◌-ℤ◌, ltb_ℤ, leb_ℤ}
use scryntic.Domain.Time.{ClockSample, QualityStatus, healthy}
use scryntic.Clock.Contracts.{ClockLimits, billion}

-- `(age * holdover_drift_ppb + 999_999_999) // 1_000_000_000`
abbrev pub holdover : ℕ → ℕ → ℕ
holdover drift age = (age * drift + 999_999_999) / billion

-- The tests of `time_interval` on known evidence that refuse it.
unfoldable pub out_of_bounds : ClockLimits → ℤ → ℕ → ℕ → Bool
out_of_bounds limits offset radius age =
    ltb limits.max_offset_ns (abs offset)
    || (ltb limits.max_uncertainty_ns radius
        || (ltb limits.max_evidence_age_ns age
            || (ltb radius (abs offset)
                || ltb radius (abs offset + holdover limits.holdover_drift_ppb age))))

bounded_interval : ClockLimits → ℤ → QualityStatus → Option ℤ → Option ℕ → Option ℕ → Option (ℤ × ℤ)
unfolding out_of_bounds
bounded_interval limits wall healthy (some offset) (some radius) (some age) =
    if out_of_bounds limits offset radius age
    then none
    else some (wall -ℤ pos radius, wall +ℤ pos radius)
bounded_interval limits wall _ _ _ _ = none

unfoldable pub time_interval : ClockSample → ClockLimits → Option (ℤ × ℤ)
unfolding bounded_interval
time_interval sample limits =
    bounded_interval limits sample.wall_time_ns sample.quality.status sample.quality.offset_ns
      sample.quality.uncertainty_ns sample.quality.evidence_age_ns

unfoldable pub is_final : ClockSample → ℤ → ClockLimits → Bool
is_final sample closing_boundary_ns limits = elim (time_interval sample limits) [
  | none ↦ false
  | some (low, high) ↦ ltb_ℤ closing_boundary_ns low
]

before_decision : Option (ℤ × ℤ) → Option (ℤ × ℤ) → Bool
before_decision (some (l, observed)) (some (decision, h)) = leb_ℤ observed decision
before_decision _ _ = false

unfoldable pub observed_by : ClockSample → ClockSample → ClockLimits → Bool
unfolding before_decision
observed_by observation cutoff limits =
    before_decision (time_interval observation limits) (time_interval cutoff limits)
