-- ===== src/Clock/Monitor/Total.antt =====
-- src/scryntic/clock/monitor.py: capture always goes on, and what a healthy sample rests on.
use scryntic.Prelude.{
  ℕ, suc, ◌-◌, ◌≤◌, ◌≡◌, ◌≢◌, String, true, false, Option, none, some, arith, ok, sym, ap, refl,
  ◌∙◌,
}
use scryntic.Prelude.Text.{codes}
use scryntic.Domain.Time.{
  ClockSample, QualityStatus, healthy, lacks_evidence, time_quality, clock_sample,
}
use scryntic.Domain.Validation.{identifier, is_identifier}
use scryntic.Clock.Contracts.{ClockReading, SyncEvidence}
use scryntic.Clock.Evidence.{Monitor, Quality, Reason, judge, quality}
use scryntic.Clock.Monitor.{
  update_continuity, representable, override, publish, sample, record_transition,
}

-- a healthy quality has all three numbers
abbrev IsComplete : Quality → Type 0
IsComplete q = q.status ≡ healthy → lacks_evidence q.offset q.radius q.age ≡ false

quality-IsComplete :
    (m : Monitor) (reading : ClockReading) (evidence : Option SyncEvidence) (probe : ℕ)
    → IsComplete (quality m reading evidence probe).1
unfolding quality judge lacks_evidence
quality-IsComplete m reading none probe = ground arith
quality-IsComplete m reading (some e) probe = ground arith

override-IsComplete :
    (d : Option Reason) (previous : Option ClockReading) (q : Quality)
    → IsComplete q
    → IsComplete (override d previous (representable q))
unfolding override representable
override-IsComplete d previous q h = ground arith

publish-ok :
    (format_epoch : String → ℕ → String) (m : Monitor) (after : ClockReading)
    (evidence : Option SyncEvidence) (q : Quality)
    → is_identifier (codes (format_epoch m.instance_id m.epoch)) ≡ true
    → is_identifier (codes after.session_id) ≡ true
    → IsComplete q
    → (s : ClockSample) × ((publish format_epoch m after evidence q).1 ≡ ok s)
      × ((publish format_epoch m after evidence q).0.previous ≡ some after)
unfolding publish time_quality clock_sample identifier
publish-ok format_epoch m after evidence q i j h = (
  record {
    wall_time_ns = after.wall_time_ns;
    monotonic_ns = after.monotonic_ns;
    session_id = after.session_id;
    quality = record {
      epoch = format_epoch m.instance_id m.epoch;
      status = q.status;
      offset_ns = q.offset;
      uncertainty_ns = q.radius;
      evidence_age_ns = q.age;
    };
  },
  ground arith,
  ground arith,
)

-- The instance stays, and the epoch is the next one at most.
abbrev Named : Monitor → Monitor → Type 0
Named m m' = (m'.instance_id ≡ m.instance_id) × (m'.epoch ≤ suc m.epoch)

update_continuity-epoch :
    (m : Monitor) (before after : ClockReading) (evidence : Option SyncEvidence)
    → ((update_continuity m before after evidence).0.instance_id ≡ m.instance_id)
      × ((update_continuity m before after evidence).0.epoch ≡ m.epoch)
unfolding update_continuity
update_continuity-epoch m before after evidence = (ground arith, ground arith)

quality-epoch :
    (m : Monitor) (reading : ClockReading) (evidence : Option SyncEvidence) (probe : ℕ)
    → ((quality m reading evidence probe).0.instance_id ≡ m.instance_id)
      × ((quality m reading evidence probe).0.epoch ≡ m.epoch)
unfolding quality judge
quality-epoch m reading none probe = (refl, refl)
quality-epoch m reading (some e) probe = (ground arith, ground arith)

record_transition-epoch :
    (m : Monitor) (status : QualityStatus) (reason : Reason) (disruption : Option Reason)
    → Named m (record_transition m status reason disruption)
unfolding record_transition
record_transition-epoch m status reason disruption = (ground arith, ground arith)

-- Where the session is an identifier, and so is what is formatted of the monitor's instance and of
-- any epoch up to the next one, `sample` returns a sample whatever the host and the daemon report,
-- and keeps the last reading.
pub sample_total :
    (format_epoch : String → ℕ → String) (m : Monitor) (before : ClockReading)
    (evidence : Option SyncEvidence) (after : ClockReading)
    → ((n : ℕ) → n ≤ suc m.epoch → is_identifier (codes (format_epoch m.instance_id n)) ≡ true)
    → is_identifier (codes after.session_id) ≡ true
    → (s : ClockSample) × ((sample format_epoch m before evidence after).1 ≡ ok s)
      × ((sample format_epoch m before evidence after).0.previous ≡ some after)
unfolding sample
sample_total format_epoch m before evidence after names session =
    let continued = (update_continuity m before after evidence).0 in
    let disruption = (update_continuity m before after evidence).1 in
    let probe = after.monotonic_ns - before.monotonic_ns in
    let judged = (quality continued after evidence probe).0 in
    let final =
      override disruption m.previous (representable (quality continued after evidence probe).1) in
    let (i1, e1) = update_continuity-epoch m before after evidence in
    let (i2, e2) = quality-epoch continued after evidence probe in
    let (i3, e3) = record_transition-epoch judged final.status final.reason disruption in
    let last = record_transition judged final.status final.reason disruption in
    let name : is_identifier (codes (format_epoch last.instance_id last.epoch)) ≡ true =
      ap (λ i. is_identifier (codes (format_epoch i last.epoch))) (i3 ∙ i2 ∙ i1)
      ∙ names last.epoch (omega (arith, e1, e2, e3)) in
    publish-ok format_epoch _ after evidence _ name session (
      override-IsComplete disruption m.previous _
        (quality-IsComplete continued after evidence probe))

publish-status :
    (format_epoch : String → ℕ → String) (m : Monitor) (after : ClockReading)
    (evidence : Option SyncEvidence) (q : Quality) (s : ClockSample)
    → (publish format_epoch m after evidence q).1 ≡ ok s
    → s.quality.status ≡ q.status
unfolding publish time_quality clock_sample
publish-status format_epoch m after evidence q s h = ground arith

override-rests_on :
    (d : Option Reason) (previous : Option ClockReading) (q : Quality)
    → (override d previous (representable q)).status ≡ healthy
    → (q.status ≡ healthy) × (d ≡ none) × (previous ≢ none)
unfolding override representable
override-rests_on d previous q h = ground arith

quality-rests_on :
    (m : Monitor) (reading : ClockReading) (evidence : Option SyncEvidence) (probe : ℕ)
    → (quality m reading evidence probe).1.status ≡ healthy
    → (e : SyncEvidence) × (evidence ≡ some e)
      × (e.synchronized ≡ true)
      × (reading.boottime_ns ≢ none)
unfolding quality judge
quality-rests_on m reading none probe h = cc
quality-rests_on m reading (some e) probe h = (e, ground arith, ground arith, ground arith)

-- A sample is healthy only if it is not the first, its readings are not disrupted, the daemon's
-- evidence is synchronized and the host reports a boot time.
pub healthy_rests_on :
    (format_epoch : String → ℕ → String) (m : Monitor) (before : ClockReading)
    (evidence : Option SyncEvidence) (after : ClockReading) (s : ClockSample)
    → (sample format_epoch m before evidence after).1 ≡ ok s
    → s.quality.status ≡ healthy
    → (m.previous ≢ none)
      × ((update_continuity m before after evidence).1 ≡ none)
      × ((e : SyncEvidence) × (evidence ≡ some e)
          × (e.synchronized ≡ true)
          × (after.boottime_ns ≢ none))
unfolding sample
healthy_rests_on format_epoch m before evidence after s h status =
    let (judged, calm, started) =
      override-rests_on _ m.previous _
        (sym (publish-status format_epoch _ after evidence _ s h) ∙ status) in
    (started, calm, quality-rests_on _ after evidence _ judged)
