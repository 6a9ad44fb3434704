-- ===== src/Clock/Monitor.antt =====
-- src/scryntic/clock/monitor.py: `ClockMonitor.sample`. What the host's clock reader and the
-- synchronization daemon return are arguments of `sample`, and so is `format_epoch`, Python's
-- `f"{instance}:{epoch}"`. The log line of `_record_transition` is not modelled.
pub mod Bounds
pub mod Refresh
pub mod Total
use scryntic.Prelude.{
  ℕ, ◌+◌, ◌-◌, String, Bool, true, false, not, ◌||◌, ◌&&◌, Option, none, some, ltb, if◌then◌else◌,
  Result, ok, err, ◌>>=◌,
}
use scryntic.Prelude.Int.{ℤ, pos, abs, ◌+ℤ◌, ◌-ℤ◌, leb_ℤ, max_ℤ}
use scryntic.Domain.Time.{
  ClockSample, QualityStatus, unknown, degraded, time_quality, clock_sample, is_healthy,
}
use scryntic.Clock.Contracts.{ClockReading, SyncEvidence, max_int64}
use scryntic.Clock.Policy.{is_final}
use scryntic.Clock.Evidence.{
  Monitor, ClockHealth, Quality, Reason, session_changed, reference_regression, bounded_evidence,
  unrepresentable_evidence, startup, discontinuity, first_of_two, quality,
}

-- "disruption" before the references are compared, from the previous reading and the two new ones
clock_disruption : Monitor → ClockReading → ClockReading → Option Reason
clock_disruption m before after =
    let d = discontinuity m.limits before after in
    elim m.previous [
      | none ↦ d
      | some p ↦
          first_of_two (first_of_two (discontinuity m.limits p before) d)
            (discontinuity m.limits p after)
    ]

-- the sum of wall changes that no elapsed monotonic time explains
unmeasured : Monitor → ClockReading → ℕ
unmeasured m after = elim m.previous [
  | none ↦ m.unmeasured_change_ns
  | some p ↦
      m.unmeasured_change_ns
      + abs (after.wall_time_ns -ℤ p.wall_time_ns -ℤ (pos after.monotonic_ns -ℤ pos p.monotonic_ns))
]

reference_regressed : Option ℕ → Option SyncEvidence → Bool
reference_regressed (some last) (some evidence) =
    evidence.synchronized && ltb evidence.reference_time_ns last
reference_regressed _ _ = false

reference_advanced : Option ℕ → Option SyncEvidence → ClockReading → Bool
reference_advanced (some last) (some evidence) after =
    evidence.synchronized
    && (ltb last evidence.reference_time_ns
        && leb_ℤ (pos evidence.reference_time_ns)
            (after.wall_time_ns +ℤ pos evidence.uncertainty_ns))
reference_advanced _ _ after = false

-- `max(before.wall, after.wall, previous.wall or before.wall, last_reference or 0)`
unfoldable pub refresh_bound : Monitor → ClockReading → ClockReading → ℤ
refresh_bound m before after =
    let previous_wall : ℤ = elim m.previous [
      | none ↦ before.wall_time_ns
      | some p ↦ p.wall_time_ns
    ] in
    let reference : ℕ = elim m.last_reference [ none ↦ 0 | some r ↦ r ] in
    max_ℤ (max_ℤ (max_ℤ before.wall_time_ns after.wall_time_ns) previous_wall) (pos reference)

is_some {ℓ} : {A : Type ℓ} → Option A → Bool
is_some none = false
is_some (some a) = true

-- the disruption that the references make known
with_reference : Monitor → Option SyncEvidence → Option Reason → Option Reason
unfolding reference_regressed
with_reference m evidence (some d) = some d
with_reference m evidence none =
    if reference_regressed m.last_reference evidence then some reference_regression else none

unfoldable pub update_continuity :
    Monitor → ClockReading → ClockReading → Option SyncEvidence → Monitor × Option Reason
unfolding clock_disruption unmeasured with_reference reference_advanced
update_continuity m before after evidence =
    let change = unmeasured m after in
    elim (with_reference m evidence (clock_disruption m before after)) [
      | some d ↦ (
        record m {
          unmeasured_change_ns = change;
          refresh_after = some (refresh_bound m before after);
        },
        some d,
      )
      | none ↦ (
        record m {
          unmeasured_change_ns =
              if reference_advanced m.last_reference evidence after then 0 else change;
        },
        none,
      )
    ]

Status-discrete : Discrete QualityStatus
Status-discrete = hlevel

Reason-discrete : Discrete Reason
Reason-discrete = hlevel

same_status : QualityStatus → QualityStatus → Bool
same_status a b = elim (Status-discrete a b) [ yes _ ↦ true | no _ ↦ false ]

same_reason : Reason → Reason → Bool
same_reason a b = elim (Reason-discrete a b) [ yes _ ↦ true | no _ ↦ false ]

unchanged : Option ClockHealth → QualityStatus → Reason → Bool
unfolding same_status same_reason Status-discrete Reason-discrete
unchanged none status reason = false
unchanged (some h) status reason =
    same_status h.sample.quality.status status && same_reason h.reason reason

unfoldable pub record_transition : Monitor → QualityStatus → Reason → Option Reason → Monitor
unfolding unchanged is_some
record_transition m status reason disruption =
    if not (unchanged m.health status reason) || is_some disruption
    then record m { epoch = m.epoch + 1 }
    else m

too_large : Option ℕ → Bool
too_large none = false
too_large (some n) = ltb max_int64 n

magnitude : Option ℤ → Option ℕ
magnitude none = none
magnitude (some z) = some (abs z)

-- the int64 test of `sample`
unfoldable pub representable : Quality → Quality
unfolding too_large magnitude
representable q =
    if too_large (magnitude q.offset) || (too_large q.radius || too_large q.age)
    then record {
      status = unknown;
      reason = unrepresentable_evidence;
      offset = none;
      radius = none;
      age = none;
    }
    else q

disrupted_status : Reason → QualityStatus
disrupted_status session_changed = unknown
disrupted_status reference_regression = unknown
disrupted_status _ = degraded

-- the status and the reason that a disruption or the first sample gives
unfoldable pub override : Option Reason → Option ClockReading → Quality → Quality
unfolding disrupted_status is_some
override (some d) previous q = record q { status = disrupted_status d; reason = d }
override none previous q =
    if not (is_some previous) && is_healthy q.status
    then record q { status = unknown; reason = startup }
    else q

-- `reason in ("startup", "bounded_evidence")`
trusts_reference : Reason → Bool
trusts_reference startup = true
trusts_reference bounded_evidence = true
trusts_reference _ = false

next_reference : Option ℕ → Option SyncEvidence → Reason → Option ℕ
unfolding trusts_reference
next_reference last none reason = last
next_reference last (some evidence) reason =
    if trusts_reference reason then some evidence.reference_time_ns else last

-- the lines of `sample` that store the sample; `evidence` is what the daemon returned
store : Monitor → ClockReading → Option SyncEvidence → Reason → ClockSample → Monitor
unfolding next_reference
store m after evidence reason sample = record m {
  health = some (record { sample = sample; reason = reason });
  previous = some after;
  last_reference = next_reference m.last_reference evidence reason;
}

module _ (format_epoch : String → ℕ → String) where
  -- `TimeQuality(...)`, `ClockSample(...)` and the stores; an exception of theirs skips the rest
  publish : Monitor → ClockReading → Option SyncEvidence → Quality → Monitor × Result ClockSample
  unfolding store
  publish m after evidence q =
      let made : Result ClockSample =
        time_quality (format_epoch m.instance_id m.epoch) q.status q.offset q.radius q.age
        >>= clock_sample after.wall_time_ns after.monotonic_ns after.session_id in
      elim made [ ok s ↦ (store m after evidence q.reason s, ok s) | err e ↦ (m, err e) ]

  unfoldable pub sample :
      Monitor → ClockReading → Option SyncEvidence → ClockReading → Monitor × Result ClockSample
  unfolding publish
  sample m before evidence after =
      let (continued, disruption) = update_continuity m before after evidence in
      let (judged, q) =
        quality continued after evidence (after.monotonic_ns - before.monotonic_ns) in
      let final = override disruption m.previous (representable q) in
      publish (record_transition judged final.status final.reason disruption) after evidence final

  -- `finality_ready`, with the readings that its `sample()` takes
  unfoldable pub finality_ready :
      Monitor → ClockReading → Option SyncEvidence → ClockReading → ℤ → Monitor × Result Bool
  finality_ready m before evidence after boundary =
      let (m', r) = sample m before evidence after in
      (m', elim r [ ok s ↦ ok (is_final s boundary m.limits) | err e ↦ err e ])
