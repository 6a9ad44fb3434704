-- ===== src/Clock/Monitor/Bounds.antt =====
-- src/scryntic/clock/monitor.py against src/scryntic/clock/policy.py: the samples that the monitor
-- calls healthy, and the age that it solves.
use scryntic.Prelude.{
  ℕ, ◌+◌, ◌-◌, ◌*◌, ◌/◌, ◌≤◌, ◌<◌, ◌≡◌, String, false, Option, none, some, arith, ok, refl, ap, sym,
  subst, ◌∙◌, ◌≢◌,
}
use scryntic.Prelude.Int.{ℤ, pos, pos_part, abs, ◌+ℤ◌, ◌-ℤ◌, ◌≤ℤ◌, +ℤ_parts, -ℤ_parts}
use scryntic.Domain.Time.{ClockSample, healthy, time_quality, clock_sample}
use scryntic.Clock.Contracts.{ClockLimits, ClockReading, SyncEvidence, EvidenceIsValid, billion}
use scryntic.Clock.Policy.{holdover, out_of_bounds, time_interval}
use scryntic.Clock.Evidence.{Monitor, Quality, Reason, solved_age, base_radius, judge, quality}
use scryntic.Clock.Monitor.{update_continuity, representable, override, publish, sample}

-- what is left of an age after the drift over it is rounded up
drift_fits : (b d e age : ℕ) → e + d ≡ billion → b * billion ≤ age * e → b + holdover d age ≤ age
drift_fits b d e age h k = omega (arith, ap (λ (t : ℕ). age * t) h)

ceiling : (x den : ℕ) → 0 < den → x ≤ (x + den - 1) / den * den
ceiling x den h = grind arith

-- For a drift below one second per second, the age that the monitor solves is at least the wall
-- time, plus the radius with the holdover of that same age, less the reference time.
pub solved_age_covers :
    (limits : ClockLimits) (reading : ClockReading) (evidence : SyncEvidence) (base : ℕ)
    → limits.holdover_drift_ppb < billion
    → let age = solved_age limits reading evidence base in
      reading.wall_time_ns +ℤ pos (base + holdover limits.holdover_drift_ppb age)
      ≤ℤ pos (evidence.reference_time_ns + age)
unfolding solved_age
solved_age_covers limits reading evidence base h = omega (
  arith,
  +ℤ_parts reading.wall_time_ns (pos base),
  -ℤ_parts (reading.wall_time_ns +ℤ pos base) (pos evidence.reference_time_ns),
  +ℤ_parts reading.wall_time_ns (pos (base + holdover limits.holdover_drift_ppb age)),
  covered,
)
  where
    uncovered : ℕ
    uncovered = pos_part (reading.wall_time_ns +ℤ pos base -ℤ pos evidence.reference_time_ns)

    left : ℕ
    left = billion - limits.holdover_drift_ppb

    age : ℕ
    age = (uncovered * billion + left - 1) / left

    covered : uncovered + holdover limits.holdover_drift_ppb age ≤ age
    covered =
        drift_fits uncovered limits.holdover_drift_ppb left age (omega arith)
          (ceiling (uncovered * billion) left (omega arith))

-- What the policy asks of a quality with a status that is healthy.
abbrev AcceptedQuality : ClockLimits → Quality → Type 0
AcceptedQuality limits q =
    (offset : ℤ) × (radius : ℕ) × (age : ℕ) × (q.offset ≡ some offset)
    × (q.radius ≡ some radius)
    × (q.age ≡ some age)
    × (out_of_bounds limits offset radius age ≡ false)

judge-accepted :
    (m : Monitor) (reading : ClockReading) (evidence : SyncEvidence) (base age : ℕ)
    → abs evidence.offset_ns ≤ base
    → (judge m reading evidence (base + holdover m.limits.holdover_drift_ppb age) age).1.status
      ≡ healthy
    → AcceptedQuality m.limits
        (judge m reading evidence (base + holdover m.limits.holdover_drift_ppb age) age).1
unfolding judge out_of_bounds
judge-accepted m reading evidence base age v h = (
  evidence.offset_ns,
  base + holdover m.limits.holdover_drift_ppb age,
  age,
  ground arith,
  ground arith,
  ground arith,
  ground arith,
)

quality-accepted :
    (m : Monitor) (reading : ClockReading) (evidence : Option SyncEvidence) (probe : ℕ)
    → ((e : SyncEvidence) → evidence ≡ some e → EvidenceIsValid e)
    → (quality m reading evidence probe).1.status ≡ healthy
    → AcceptedQuality m.limits (quality m reading evidence probe).1
unfolding quality
quality-accepted m reading none probe v h = cc
quality-accepted m reading (some e) probe v h =
    judge-accepted m reading e (base_radius m reading e probe)
      (solved_age m.limits reading e (base_radius m reading e probe)) (omega (arith, v e refl)) h

-- the sample that is published carries the quality that it was published with
publish-carries :
    (format_epoch : String → ℕ → String) (m : Monitor) (after : ClockReading)
    (evidence : Option SyncEvidence) (q : Quality) (s : ClockSample)
    → (publish format_epoch m after evidence q).1 ≡ ok s
    → (s.quality.status ≡ q.status)
      × (s.quality.offset_ns ≡ q.offset)
      × (s.quality.uncertainty_ns ≡ q.radius)
      × (s.quality.evidence_age_ns ≡ q.age)
unfolding publish time_quality clock_sample
publish-carries format_epoch m after evidence q s h = ground arith

override-healthy :
    (d : Option Reason) (previous : Option ClockReading) (q : Quality)
    → (override d previous (representable q)).status ≡ healthy
    → (q.status ≡ healthy)
      × (override d previous (representable q) ≡ q)
      × (d ≡ none)
      × (previous ≢ none)
unfolding override representable
override-healthy d previous q h = ground arith

limits-update_continuity :
    (m : Monitor) (before after : ClockReading) (evidence : Option SyncEvidence)
    → (update_continuity m before after evidence).0.limits ≡ m.limits
unfolding update_continuity
limits-update_continuity m before after evidence = ground arith

time_interval-accepted :
    (s : ClockSample) (limits : ClockLimits) (q : Quality)
    → s.quality.status ≡ healthy
    → s.quality.offset_ns ≡ q.offset
    → s.quality.uncertainty_ns ≡ q.radius
    → s.quality.evidence_age_ns ≡ q.age
    → AcceptedQuality limits q
    → (radius : ℕ) × (s.quality.uncertainty_ns ≡ some radius)
      × (time_interval s limits ≡ some (s.wall_time_ns -ℤ pos radius, s.wall_time_ns +ℤ pos radius))
unfolding time_interval
time_interval-accepted s limits q h o r a (offset, radius, age, eo, er, ea, fits) =
    (radius, ground arith, ground arith)

-- Where the daemon's evidence is valid, a sample that the monitor calls healthy is one that the
-- policy accepts under the same limits: its interval is the wall time give or take the uncertainty.
pub sample_accepted :
    (format_epoch : String → ℕ → String) (m : Monitor) (before : ClockReading)
    (evidence : Option SyncEvidence) (after : ClockReading) (s : ClockSample)
    → ((e : SyncEvidence) → evidence ≡ some e → EvidenceIsValid e)
    → (sample format_epoch m before evidence after).1 ≡ ok s
    → s.quality.status ≡ healthy
    → (radius : ℕ) × (s.quality.uncertainty_ns ≡ some radius)
      × (time_interval s m.limits
          ≡ some (s.wall_time_ns -ℤ pos radius, s.wall_time_ns +ℤ pos radius))
unfolding sample
sample_accepted format_epoch m before evidence after s v h status =
    time_interval-accepted s m.limits q status (ground (arith, carried, kept))
      (ground (arith, carried, kept)) (ground (arith, carried, kept)) accepted
  where
    continued : Monitor
    continued = (update_continuity m before after evidence).0

    q : Quality
    q = (quality continued after evidence (after.monotonic_ns - before.monotonic_ns)).1

    final : Quality
    final = override (update_continuity m before after evidence).1 m.previous (representable q)

    carried :
        (s.quality.status ≡ final.status)
        × (s.quality.offset_ns ≡ final.offset)
        × (s.quality.uncertainty_ns ≡ final.radius)
        × (s.quality.evidence_age_ns ≡ final.age)
    carried = publish-carries format_epoch _ after evidence final s h

    kept :
        (q.status ≡ healthy)
        × (final ≡ q)
        × ((update_continuity m before after evidence).1 ≡ none)
        × (m.previous ≢ none)
    kept =
        override-healthy (update_continuity m before after evidence).1 m.previous q
          (sym carried.0 ∙ status)

    accepted : AcceptedQuality m.limits q
    accepted =
        subst (λ l. AcceptedQuality l q) (limits-update_continuity m before after evidence)
          (quality-accepted continued after evidence (after.monotonic_ns - before.monotonic_ns) v
            kept.0)
