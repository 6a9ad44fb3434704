-- ===== src/Clock/Policy/Sound.antt =====
-- src/scryntic/clock/policy.py: what a comparison of intervals says of the true times.
use scryntic.Prelude.{ℕ, ◌+◌, ◌≤◌, ◌≡◌, true, some, arith}
use scryntic.Prelude.Int.{ℤ, pos, pos_part, neg_part, ◌≤ℤ◌, ◌<ℤ◌, +ℤ_parts, -ℤ_parts}
use scryntic.Domain.Time.{ClockSample}
use scryntic.Clock.Contracts.{ClockLimits}
use scryntic.Clock.Policy.{time_interval, is_final, observed_by}

-- `t` is a true time that the sample's error radius admits.
pub record Admits (sample : ClockSample) (t : ℤ) : Type 0 where
  pub radius : ℕ
  pub stated : sample.quality.uncertainty_ns ≡ some radius
  pub not_before :
      pos_part sample.wall_time_ns + neg_part t ≤ pos_part t + neg_part sample.wall_time_ns + radius
  pub not_after :
      pos_part t + neg_part sample.wall_time_ns ≤ pos_part sample.wall_time_ns + neg_part t + radius

-- If the policy says that an observation was made by the cutoff, then every true time that the
-- observation's error radius admits is at or before every one that the cutoff's admits.
pub observed_by_true :
    (a b : ClockSample) (limits : ClockLimits) (t u : ℤ)
    → observed_by a b limits ≡ true
    → Admits a t
    → Admits b u
    → t ≤ℤ u
unfolding observed_by time_interval
observed_by_true a b limits t u h p q =
    ground (arith, +ℤ_parts a.wall_time_ns (pos p.radius), -ℤ_parts b.wall_time_ns (pos q.radius))

-- If the policy says that a bar is final, then every true time that the sample's error radius
-- admits is strictly after the closing boundary.
pub is_final_true :
    (a : ClockSample) (boundary : ℤ) (limits : ClockLimits) (t : ℤ)
    → is_final a boundary limits ≡ true
    → Admits a t
    → boundary <ℤ t
unfolding is_final time_interval
is_final_true a boundary limits t h p = ground (arith, -ℤ_parts a.wall_time_ns (pos p.radius))
