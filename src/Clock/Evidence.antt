-- ===== src/Clock/Evidence.antt =====
-- src/scryntic/clock/monitor.py: the state of `ClockMonitor`, and how it judges one reading.
use scryntic.Prelude.{
  ℕ, ◌+◌, ◌-◌, ◌*◌, ◌/◌, String, Bool, true, false, not, Option, none, some, ltb, if◌then◌else◌,
}
use scryntic.Prelude.Int.{ℤ, pos, abs, pos_part, ◌+ℤ◌, ◌-ℤ◌, ltb_ℤ, leb_ℤ}
use scryntic.Prelude.Text.{str_eq}
use scryntic.Domain.Time.{ClockSample, QualityStatus, unknown, degraded, healthy}
use scryntic.Clock.Contracts.{ClockLimits, ClockReading, SyncEvidence, billion}
use scryntic.Clock.Policy.{holdover}

pub data Reason : Type 0 where
  session_changed monotonic_regression suspend clock_step sampling_gap : Reason
  reference_regression : Reason
  missing_evidence unsynchronized awaiting_refresh future_evidence stale_evidence : Reason
  excess_offset excess_uncertainty unsupported_suspend_clock bounded_evidence : Reason
  unrepresentable_evidence startup : Reason

pub record ClockHealth : Type 0 where
  pub sample : ClockSample
  pub reason : Reason

pub record Monitor : Type 0 where
  pub limits : ClockLimits
  pub instance_id : String
  pub previous : Option ClockReading
  pub last_reference : Option ℕ
  pub refresh_after : Option ℤ
  pub epoch : ℕ
  pub unmeasured_change_ns : ℕ
  pub health : Option ClockHealth

-- `ClockMonitor.__init__`, with the hexadecimal text that `uuid4` drew
unfoldable pub new : ClockLimits → String → Monitor
new limits instance_id = record {
  limits = limits;
  instance_id = instance_id;
  previous = none;
  last_reference = none;
  refresh_after = none;
  epoch = 0;
  unmeasured_change_ns = 0;
  health = none;
}

-- Python's `a or b`
abbrev pub first_of_two {ℓ} : {A : Type ℓ} → Option A → Option A → Option A
first_of_two (some a) b = some a
first_of_two none b = b

-- The lines of `_discontinuity` on the two boot times.
boot_discontinuity : ClockLimits → Option ℕ → Option ℕ → ℤ → ℕ → Option Reason
boot_discontinuity limits (some b) (some a) elapsed allowance =
    if ltb_ℤ (pos a -ℤ pos b) (pos 0)
    then some monotonic_regression
    else if ltb (limits.max_step_ns + allowance) (abs (pos a -ℤ pos b -ℤ elapsed))
    then some suspend
    else none
boot_discontinuity limits _ _ elapsed allowance = none

-- The lines of `_discontinuity` after those.
wall_discontinuity : ClockLimits → ClockReading → ClockReading → ℤ → ℕ → Option Reason
wall_discontinuity limits before after elapsed allowance =
    if ltb (limits.max_step_ns + allowance)
      (abs (after.wall_time_ns -ℤ before.wall_time_ns -ℤ elapsed))
    then some clock_step
    else if ltb_ℤ (pos limits.max_sample_gap_ns) elapsed
    then some sampling_gap
    else none

unfoldable pub discontinuity : ClockLimits → ClockReading → ClockReading → Option Reason
unfolding boot_discontinuity wall_discontinuity
discontinuity limits before after =
    let elapsed = pos after.monotonic_ns -ℤ pos before.monotonic_ns in
    let allowance = before.capture_uncertainty_ns + after.capture_uncertainty_ns in
    if not (str_eq before.session_id after.session_id)
    then some session_changed
    else if ltb_ℤ elapsed (pos 0)
    then some monotonic_regression
    else first_of_two
        (boot_discontinuity limits before.boottime_ns after.boottime_ns elapsed allowance)
        (wall_discontinuity limits before after elapsed allowance)

pub record Quality : Type 0 where
  pub status : QualityStatus
  pub reason : Reason
  pub offset : Option ℤ
  pub radius : Option ℕ
  pub age : Option ℕ

-- "Solve age >= wall + radius(age) - reference": the age, from the radius without holdover.
unfoldable pub solved_age : ClockLimits → ClockReading → SyncEvidence → ℕ → ℕ
solved_age limits reading evidence radius =
    let denominator = billion - limits.holdover_drift_ppb in
    (pos_part (reading.wall_time_ns +ℤ pos radius -ℤ pos evidence.reference_time_ns) * billion
      + denominator
      - 1)
    / denominator

-- `radius` as `_quality` first sets it.
abbrev pub base_radius : Monitor → ClockReading → SyncEvidence → ℕ → ℕ
base_radius m reading evidence probe_ns =
    evidence.uncertainty_ns + reading.capture_uncertainty_ns + probe_ns + m.unmeasured_change_ns

abbrev known : QualityStatus → Reason → ℤ → ℕ → ℕ → Quality
known status reason offset radius age = record {
  status = status;
  reason = reason;
  offset = some offset;
  radius = some radius;
  age = some age;
}

is_after : Option ℤ → ℕ → Bool
is_after none reference = false
is_after (some refresh) reference = leb_ℤ (pos reference) refresh

has_boottime : Option ℕ → Bool
has_boottime none = false
has_boottime (some b) = true

-- The ladder of `_quality` once the radius and the age are known.
unfoldable pub judge : Monitor → ClockReading → SyncEvidence → ℕ → ℕ → Monitor × Quality
unfolding is_after has_boottime
judge m reading evidence radius age =
    if not evidence.synchronized
    then (m, known degraded unsynchronized evidence.offset_ns radius age)
    else if is_after m.refresh_after evidence.reference_time_ns
    then (m, known unknown awaiting_refresh evidence.offset_ns radius age)
    else if ltb_ℤ (reading.wall_time_ns +ℤ pos radius) (pos evidence.reference_time_ns)
    then (
      m,
      record {
        status = unknown;
        reason = future_evidence;
        offset = some evidence.offset_ns;
        radius = some radius;
        age = none;
      },
    )
    else if ltb m.limits.max_evidence_age_ns age
    then (m, known unknown stale_evidence evidence.offset_ns radius age)
    else if ltb m.limits.max_offset_ns (abs evidence.offset_ns)
    then (m, known degraded excess_offset evidence.offset_ns radius age)
    else if ltb m.limits.max_uncertainty_ns radius
    then (m, known degraded excess_uncertainty evidence.offset_ns radius age)
    else if not (has_boottime reading.boottime_ns)
    then (m, known unknown unsupported_suspend_clock evidence.offset_ns radius age)
    else (
      record m { refresh_after = none },
      known healthy bounded_evidence evidence.offset_ns radius age,
    )

unfoldable pub quality : Monitor → ClockReading → Option SyncEvidence → ℕ → Monitor × Quality
quality m reading none probe_ns = (
  m,
  record { status = unknown; reason = missing_evidence; offset = none; radius = none; age = none },
)
quality m reading (some evidence) probe_ns =
    let base = base_radius m reading evidence probe_ns in
    let age = solved_age m.limits reading evidence base in
    judge m reading evidence (base + holdover m.limits.holdover_drift_ppb age) age
