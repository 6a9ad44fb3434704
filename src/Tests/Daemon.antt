-- ===== src/Tests/Daemon.antt =====
-- src/scryntic/daemon/health.py: a cache with one stream.
use scryntic.Prelude.{◌≡◌, true, false, none, some, [], ◌∷◌, ok, refl, arith, All, ◌⊎◌}
use scryntic.Daemon.Health.Snapshot.{
  distinct, StreamHealth, HealthSnapshot, healthy, degraded, Fault, source, stale, none_phase,
  clock_healthy, checked_stream, checked_snapshot,
}
use scryntic.Daemon.Health.{
  is_old, with_fault, updated, age, refreshed, refresh_all, HealthCache, snapshot, has_fault,
}
use scryntic.Daemon.Health.Fresh.{
  HeartbeatIsFresh, StreamIsFresh, expired, stale_streams, snapshot-ready, snapshot-healthy,
}
use scryntic.Daemon.Health.Total.{snapshot_total}

abbrev stream : StreamHealth
stream = record {
  ordinal = 0;
  last_received_monotonic_ns = 90;
  last_heartbeat_monotonic_ns = 95;
  last_received_utc_ns = none;
  coverage_start_ns = 0;
  coverage_end_ns = 0;
  connected = true;
  coverage_pending = 0;
  coverage_unknown = 0;
  coverage_unrecoverable = 0;
  freshness_limit_ns = 50;
  received_age_ns = none;
  heartbeat_age_ns = none;
  stale = false;
  data_stale = false;
  heartbeat_stale = false;
}

abbrev running : HealthSnapshot
running = record {
  state = healthy;
  sampled_at_ns = 90;
  heartbeat_ns = 95;
  live = true;
  ready = true;
  streams = stream ∷ [];
  received = 1;
  durably_committed = 1;
  normalized = 1;
  published = 0;
  clock_status = clock_healthy;
  clock_offset_ns = none;
  clock_uncertainty_ns = none;
  clock_evidence_age_ns = none;
  clock_epoch = 1;
  queue_depth = 0;
  queue_capacity = 8;
  backpressure = false;
  storage_available_bytes = 10;
  storage_reserve_bytes = 1;
  normalization_fault = false;
  publication_fault = false;
  sync_enabled = false;
  sync_healthy = true;
  jobs_pending = 0;
  jobs_running = 0;
  jobs_failed = 0;
  jobs_interrupted = 0;
  jobs_cancelled = 0;
  jobs_expired = 0;
  shutdown_intake_stopped = false;
  shutdown_pending = 0;
  shutdown_phase = none_phase;
  shutdown_deadline_ns = none;
  unfinished_operations = 0;
  faults = [];
}

abbrev cache : HealthCache
cache = record { stale_after_ns = 20; current = running }

abbrev shown : HealthSnapshot
shown = record running {
  streams = record stream { received_age_ns = some 10; heartbeat_age_ns = some 5 } ∷ [];
}

shown_test : snapshot cache 100 ≡ ok shown
unfolding snapshot refresh_all checked_stream refreshed age checked_snapshot updated distinct
    with_fault is_old
shown_test = refl

snapshot-ready_example :
    HeartbeatIsFresh cache 100
    × All (StreamIsFresh 100) (stream ∷ [])
    × (running.ready ≡ true)
    × (running.live ≡ true)
    × ((running.state ≡ healthy) ⊎ (running.state ≡ degraded))
snapshot-ready_example = snapshot-ready cache 100 shown shown_test refl

snapshot-healthy_example :
    (shown.state ≡ healthy
      → (running.state ≡ healthy) × (expired cache 100 ≡ false) × (stale_streams cache 100 ≡ false))
    × (expired cache 100 ≡ true → has_fault stale shown.faults ≡ true)
    × (stale_streams cache 100 ≡ true → has_fault source shown.faults ≡ true)
    × ((f : Fault) → has_fault f [] ≡ true → has_fault f shown.faults ≡ true)
snapshot-healthy_example = snapshot-healthy cache 100 shown shown_test

-- long after, the owner has stopped publishing
snapshot_total_example :
    (h : HealthSnapshot) × (snapshot cache 1_000 ≡ ok h) × (checked_snapshot h ≡ ok h)
unfolding checked_snapshot distinct checked_stream
snapshot_total_example = snapshot_total cache 1_000 refl (refl, tt) (omega arith)
