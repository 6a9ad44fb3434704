-- ===== src/Tests/Clock.antt =====
-- src/scryntic/clock: two readings of a quiet host, and one after the wall clock was set.
use scryntic.Prelude.{
  ℕ, ◌≡◌, ◌≢◌, ◌+◌, ◌-◌, String, true, none, some, [], ◌∷◌, ok, refl, arith, All, ◌==◌,
  if◌then◌else◌, Bool-cases, inl, inr,
}
use scryntic.Prelude.Text.{codes}
use Prim.Native.String.{◌++◌ as ◌<>◌}
use scryntic.Prelude.Int.{pos, ◌+ℤ◌, ◌-ℤ◌, ◌≤ℤ◌, ◌<ℤ◌}
use scryntic.Domain.Time.{lacks_evidence, ClockSample, healthy, time_quality, clock_sample}
use scryntic.Domain.Validation.{is_identifier, identifier}
use scryntic.Clock.Contracts.{ClockReading, SyncEvidence, default_limits}
use scryntic.Clock.Policy.{time_interval, is_final, observed_by, holdover}
use scryntic.Clock.Policy.Sound.{observed_by_true, is_final_true}
use scryntic.Clock.Evidence.{Monitor, quality, clock_step, judge, solved_age, discontinuity}
use scryntic.Clock.Monitor.{
  sample, update_continuity, refresh_bound, override, representable, record_transition,
}
use scryntic.Clock.Monitor.Bounds.{sample_accepted, solved_age_covers}
use scryntic.Clock.Monitor.Total.{sample_total, healthy_rests_on}
use scryntic.Clock.Monitor.Refresh.{
  disruption_awaits_refresh, disruption_of, samples, NotHealthy, Readings,
}

abbrev start_ns : ℕ
start_ns = 1_700_000_000_000_000_000

abbrev reading : ℕ → ℕ → ClockReading
reading wall monotonic = record {
  wall_time_ns = pos (start_ns + wall);
  monotonic_ns = monotonic;
  boottime_ns = some monotonic;
  session_id = "boot-1";
  capture_uncertainty_ns = 100;
}

abbrev evidence : SyncEvidence
evidence = record {
  reference_time_ns = start_ns;
  offset_ns = pos 2_000;
  uncertainty_ns = 5_000;
  synchronized = true;
}

abbrev format_epoch : String → ℕ → String
format_epoch instance epoch = "monitor:1"

abbrev monitor : Monitor
monitor = record {
  limits = default_limits;
  instance_id = "monitor";
  previous = some (reading 1_000 1_000);
  last_reference = some start_ns;
  refresh_after = none;
  epoch = 1;
  unmeasured_change_ns = 0;
  health = none;
}

abbrev healthy_sample : ClockSample
healthy_sample = record {
  wall_time_ns = pos (start_ns + 3_000);
  monotonic_ns = 3_000;
  session_id = "boot-1";
  quality = record {
    epoch = "monitor:1";
    status = healthy;
    offset_ns = some (pos 2_000);
    uncertainty_ns = some 6_105;
    evidence_age_ns = some 9_105;
  };
}

abbrev later_sample : ClockSample
later_sample = record healthy_sample { wall_time_ns = pos (start_ns + 20_000) }

sample_test :
    (sample format_epoch monitor (reading 2_000 2_000) (some evidence) (reading 3_000 3_000)).1
    ≡ ok healthy_sample
unfolding sample time_quality identifier override update_continuity discontinuity ◌-ℤ◌ representable
    quality judge ◌+ℤ◌ solved_age lacks_evidence clock_sample
sample_test = refl

sample_accepted_example :
    (radius : ℕ) × (healthy_sample.quality.uncertainty_ns ≡ some radius)
    × (time_interval healthy_sample default_limits
        ≡ some
            (healthy_sample.wall_time_ns -ℤ pos radius, healthy_sample.wall_time_ns +ℤ pos radius))
sample_accepted_example =
    sample_accepted format_epoch monitor (reading 2_000 2_000) (some evidence) (reading 3_000 3_000)
      healthy_sample (λ e h. ground arith) sample_test refl

solved_age_covers_example :
    let age = solved_age default_limits (reading 3_000 3_000) evidence 6_100 in
    pos (start_ns + 3_000) +ℤ pos (6_100 + holdover 500_000 age) ≤ℤ pos (start_ns + age)
solved_age_covers_example =
    solved_age_covers default_limits (reading 3_000 3_000) evidence 6_100 (omega arith)

healthy_rests_on_example :
    (monitor.previous ≢ none)
    × ((update_continuity monitor (reading 2_000 2_000) (reading 3_000 3_000) (some evidence)).1
        ≡ none)
    × ((e : SyncEvidence) × (some evidence ≡ some e)
        × (e.synchronized ≡ true)
        × ((reading 3_000 3_000).boottime_ns ≢ none))
healthy_rests_on_example =
    healthy_rests_on format_epoch monitor (reading 2_000 2_000) (some evidence)
      (reading 3_000 3_000) healthy_sample sample_test refl

-- what Python formats, of the first three epochs
abbrev numbered : String → ℕ → String
numbered instance epoch =
    instance <> (if epoch == 0 then ":0" else if epoch == 1 then ":1" else ":2")

numbered_test : (n : ℕ) → is_identifier (codes (numbered "monitor" n)) ≡ true
unfolding is_identifier
numbered_test n = elim (Bool-cases (n == 0)) [
  | inl first ↦ rw first refl
  | inr later ↦ elim (Bool-cases (n == 1)) [
    | inl second ↦ rw later (rw second refl)
    | inr third ↦ rw later (rw third refl)
  ]
]

sample_total_example :
    (s : ClockSample) × ((sample numbered monitor
        (reading 2_000 2_000)
        none
        (reading 3_000 3_000)).1
      ≡ ok s)
    × ((sample numbered monitor (reading 2_000 2_000) none (reading 3_000 3_000)).0.previous
        ≡ some (reading 3_000 3_000))
unfolding is_identifier
sample_total_example =
    sample_total numbered monitor (reading 2_000 2_000) none (reading 3_000 3_000)
      (λ n small. numbered_test n) refl

-- the wall clock is set forward by a second between two samples
abbrev set_forward : Readings
set_forward = record {
  before = reading 2_000 2_000;
  evidence = some evidence;
  after = reading 1_000_003_000 3_000;
}

abbrev quiet : Readings
quiet = record {
  before = reading 1_000_004_000 4_000;
  evidence = some evidence;
  after = reading 1_000_005_000 5_000;
}

set_forward_test : disruption_of monitor set_forward ≡ some clock_step
unfolding update_continuity discontinuity ◌-ℤ◌
set_forward_test = refl

disruption_awaits_refresh_example :
    (pos (start_ns + 1_000_003_000) ≤ℤ refresh_bound monitor set_forward.before set_forward.after)
    × All NotHealthy (samples format_epoch monitor (set_forward ∷ quiet ∷ []))
unfolding update_continuity refresh_bound sample time_quality identifier override discontinuity ◌-ℤ◌
    clock_sample record_transition quality judge
disruption_awaits_refresh_example =
    disruption_awaits_refresh format_epoch monitor set_forward (quiet ∷ [])
      (λ e. absurd (ground (arith, set_forward_test))) (omega arith, (omega arith, tt)) (refl, tt)

observed_by_true_example : pos (start_ns + 3_001) ≤ℤ pos (start_ns + 19_999)
unfolding observed_by time_interval ◌+ℤ◌ ◌-ℤ◌
observed_by_true_example =
    observed_by_true healthy_sample later_sample default_limits (pos (start_ns + 3_001))
      (pos (start_ns + 19_999)) refl
      (record { radius = 6_105; stated = refl; not_before = omega arith; not_after = omega arith })
      (record { radius = 6_105; stated = refl; not_before = omega arith; not_after = omega arith })

is_final_true_example : pos (start_ns - 4_000) <ℤ pos (start_ns + 3_001)
unfolding is_final time_interval ◌-ℤ◌
is_final_true_example =
    is_final_true healthy_sample (pos (start_ns - 4_000)) default_limits (pos (start_ns + 3_001))
      refl
      (record { radius = 6_105; stated = refl; not_before = omega arith; not_after = omega arith })
