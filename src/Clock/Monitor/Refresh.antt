-- ===== src/Clock/Monitor/Refresh.antt =====
-- src/scryntic/clock/monitor.py, "A disruption invalidates prior evidence until a later reference
-- measurement": samples in sequence.
use scryntic.Prelude.{
  ℕ, ◌-◌, ◌≡◌, ◌≢◌, String, Option, none, some, arith, ok, err, List, [], ◌∷◌, Result, All, ◌∙◌,
}
use scryntic.Prelude.Int.{ℤ, pos, ◌≤ℤ◌}
use scryntic.Domain.Time.{ClockSample, QualityStatus, healthy, time_quality, clock_sample}
use scryntic.Clock.Contracts.{ClockReading, SyncEvidence}
use scryntic.Clock.Evidence.{Monitor, Quality, Reason, judge, quality}
use scryntic.Clock.Monitor.{
  update_continuity, record_transition, representable, override, refresh_bound, publish, sample,
}

-- What `sample` reads: the clock, the daemon, the clock again.
pub record Readings : Type 0 where
  pub before : ClockReading
  pub evidence : Option SyncEvidence
  pub after : ClockReading

abbrev pub NotHealthy : Result ClockSample → Type 0
NotHealthy (ok s) = s.quality.status ≢ healthy
NotHealthy (err e) = Unit

-- the reference of the evidence, if there is any, is not after `r`
abbrev pub NotAfter : ℤ → Option SyncEvidence → Type 0
NotAfter r none = Unit
NotAfter r (some e) = pos e.reference_time_ns ≤ℤ r

abbrev pub disruption_of : Monitor → Readings → Option Reason
disruption_of m i = (update_continuity m i.before i.after i.evidence).1

quality-awaiting :
    (m : Monitor) (reading : ClockReading) (evidence : Option SyncEvidence) (probe : ℕ) (r : ℤ)
    → m.refresh_after ≡ some r
    → NotAfter r evidence
    → ((quality m reading evidence probe).1.status ≢ healthy)
      × ((quality m reading evidence probe).0.refresh_after ≡ some r)
unfolding quality judge
quality-awaiting m reading none probe r h k = ground arith
quality-awaiting m reading (some e) probe r h k = ground arith

continuity-refresh :
    (m : Monitor) (i : Readings)
    → (disruption_of m i ≡ none
        → (update_continuity m i.before i.after i.evidence).0.refresh_after ≡ m.refresh_after)
      × (disruption_of m i ≢ none
          → (update_continuity m i.before i.after i.evidence).0.refresh_after
            ≡ some (refresh_bound m i.before i.after))
unfolding update_continuity
continuity-refresh m i = ground arith

override-keeps :
    (d : Option Reason) (previous : Option ClockReading) (q : Quality)
    → q.status ≢ healthy
    → (override d previous (representable q)).status ≢ healthy
unfolding override representable
override-keeps d previous q h = ground arith

publish-awaiting :
    (format_epoch : String → ℕ → String) (m : Monitor) (after : ClockReading)
    (evidence : Option SyncEvidence) (q : Quality) (status : QualityStatus) (reason : Reason)
    (d : Option Reason)
    → q.status ≢ healthy
    → NotHealthy (publish format_epoch (record_transition m status reason d) after evidence q).1
      × ((publish format_epoch
            (record_transition m status reason d)
            after
            evidence
            q).0.refresh_after
          ≡ m.refresh_after)
unfolding publish record_transition time_quality clock_sample
publish-awaiting format_epoch m after evidence q status reason d h = ground arith

module _ (format_epoch : String → ℕ → String) where
  abbrev pub take_sample : Monitor → Readings → Monitor × Result ClockSample
  take_sample m i = sample format_epoch m i.before i.evidence i.after

  -- The samples of a sequence of readings, in order.
  pub samples : Monitor → List Readings → List (Result ClockSample)
  samples m [] = []
  samples m (i ∷ is) = let (m', r) = take_sample m i in r ∷ samples m' is

  -- no readings of the sequence are disrupted
  abbrev pub Undisrupted : Monitor → List Readings → Type 0
  Undisrupted m [] = Unit
  Undisrupted m (i ∷ is) = (disruption_of m i ≡ none) × Undisrupted (take_sample m i).0 is

  sample-awaiting :
      (m : Monitor) (i : Readings) (r : ℤ)
      → (update_continuity m i.before i.after i.evidence).0.refresh_after ≡ some r
      → NotAfter r i.evidence
      → NotHealthy (take_sample m i).1 × ((take_sample m i).0.refresh_after ≡ some r)
  unfolding sample
  sample-awaiting m i r h k =
      let continued = (update_continuity m i.before i.after i.evidence).0 in
      let judged =
        quality continued i.after i.evidence (i.after.monotonic_ns - i.before.monotonic_ns) in
      let (ill, waits) =
        quality-awaiting continued i.after i.evidence (i.after.monotonic_ns - i.before.monotonic_ns)
          r h k in
      let final = override (disruption_of m i) m.previous (representable judged.1) in
      let (bad, still) =
        publish-awaiting format_epoch judged.0 i.after i.evidence final final.status final.reason
          (disruption_of m i) (override-keeps (disruption_of m i) m.previous judged.1 ill) in
      (bad, still ∙ waits)

  run-awaiting :
      (m : Monitor) (is : List Readings) (r : ℤ)
      → m.refresh_after ≡ some r
      → All (λ i. NotAfter r i.evidence) is
      → Undisrupted m is
      → All NotHealthy (samples m is)
  unfolding samples
  run-awaiting m [] r h late calm = tt
  run-awaiting m (i ∷ is) r h late calm =
      let (bad, still) = sample-awaiting m i r ((continuity-refresh m i).0 calm.0 ∙ h) late.0 in
      (bad, run-awaiting (take_sample m i).0 is r still late.1 calm.1)

  -- A disrupted sample sets a bound, at or after its wall time. Until evidence with a reference
  -- after the bound is read or another disruption occurs, neither that sample nor any that follows
  -- is healthy.
  pub disruption_awaits_refresh :
      (m : Monitor) (i : Readings) (is : List Readings)
      → disruption_of m i ≢ none
      → All (λ j. NotAfter (refresh_bound m i.before i.after) j.evidence) (i ∷ is)
      → Undisrupted (take_sample m i).0 is
      → (i.after.wall_time_ns ≤ℤ refresh_bound m i.before i.after)
        × All NotHealthy (samples m (i ∷ is))
  unfolding samples
  disruption_awaits_refresh m i is d late calm =
      let (bad, still) = sample-awaiting m i _ ((continuity-refresh m i).1 d) late.0 in
      (
        unfold refresh_bound in ground arith,
        (bad, run-awaiting (take_sample m i).0 is _ still late.1 calm),
      )
