-- ===== src/Daemon/Health.antt =====
-- src/scryntic/daemon/health.py: `HealthCache`. The clock value that `snapshot` reads is an argument.
-- `to_json` is not modelled.
pub mod Snapshot
pub mod Faults
pub mod Fresh
pub mod Total
use scryntic.Prelude.{
  ℕ, ◌-◌, Bool, true, false, not, ◌&&◌, ◌||◌, Option, none, some, List, [], ◌∷◌, ◌++◌, ltb, leb,
  ◌==◌, any, if◌then◌else◌, Result, ok, value_error, require, refuse, ◌>>=◌, ◌>>◌,
}
use scryntic.Daemon.Health.Snapshot.{
  State, failed, healthy, degraded, Fault, source, stale, StreamHealth, HealthSnapshot,
  checked_stream, checked_snapshot, same_fault, is_bounded, out_of_range,
}

-- `_age`
unfoldable pub age : ℕ → ℕ → Option ℕ
age now timestamp = if ltb 0 timestamp && leb timestamp now then some (now - timestamp) else none

-- `timestamp == 0 or now < timestamp or now - timestamp > limit`
unfoldable pub is_old : ℕ → ℕ → ℕ → Bool
is_old now timestamp limit = timestamp == 0 || (ltb now timestamp || ltb limit (now - timestamp))

exceeds : Option ℕ → ℕ → Bool
exceeds none limit = true
exceeds (some n) limit = ltb limit n

max_ℕ : ℕ → ℕ → ℕ
max_ℕ a b = if ltb a b then b else a

-- the stream that the loop of `snapshot` appends
unfoldable pub refreshed : ℕ → StreamHealth → StreamHealth
unfolding exceeds max_ℕ
refreshed now s =
    let received_age = age now s.last_received_monotonic_ns in
    let latest = max_ℕ s.last_received_monotonic_ns s.last_heartbeat_monotonic_ns in
    let data_stale = exceeds received_age s.freshness_limit_ns in
    let heartbeat_stale = is_old now latest s.freshness_limit_ns in
    record s {
      received_age_ns = received_age;
      heartbeat_age_ns = age now s.last_heartbeat_monotonic_ns;
      stale = not s.connected || (data_stale || heartbeat_stale);
      data_stale = data_stale;
      heartbeat_stale = heartbeat_stale;
    }

unfoldable pub refresh_all : ℕ → List StreamHealth → Result (List StreamHealth)
refresh_all now [] = ok []
refresh_all now (s ∷ streams) = do
  first ← checked_stream (refreshed now s)
  rest ← refresh_all now streams
  ok (first ∷ rest)

unfoldable pub has_fault : Fault → List Fault → Bool
has_fault fault = any (same_fault fault)

-- one turn of the loop over the two faults
unfoldable pub with_fault : Bool → Fault → List Fault → List Fault
with_fault present fault faults =
    if present && not (has_fault fault faults) then faults ++ fault ∷ [] else faults

degrade : Bool → State → State
degrade true healthy = degraded
degrade _ state = state

is_failed : State → Bool
is_failed failed = true
is_failed _ = false

may_be_ready : State → Bool
may_be_ready healthy = true
may_be_ready degraded = true
may_be_ready _ = false

-- the snapshot that `snapshot` hands to `replace`
unfoldable pub updated : HealthSnapshot → Bool → List StreamHealth → HealthSnapshot
unfolding degrade is_failed may_be_ready
updated current expired streams =
    let stale_stream = any (λ s. s.stale) streams in
    let state = degrade (expired || stale_stream) current.state in
    let live = current.live && (not expired && not (is_failed state)) in
    record current {
      state = state;
      live = live;
      ready = current.ready && (live && (not stale_stream && may_be_ready state));
      streams = streams;
      faults = with_fault stale_stream source (with_fault expired stale current.faults);
    }

pub record HealthCache : Type 0 where
  pub stale_after_ns : ℕ
  pub current : HealthSnapshot

-- `HealthCache.__init__`
unfoldable pub new_cache : HealthSnapshot → ℕ → Result HealthCache
new_cache initial stale_after = do
  require (is_bounded stale_after) out_of_range
  refuse (stale_after == 0) (value_error "health freshness limit must be positive")
  ok (record { stale_after_ns = stale_after; current = initial })

unfoldable pub publish : HealthCache → HealthSnapshot → Result HealthCache
publish cache snapshot = do
  refuse (ltb snapshot.sampled_at_ns cache.current.sampled_at_ns)
      (value_error "health sample time cannot regress")
  ok (record cache { current = snapshot })

unfoldable pub snapshot : HealthCache → ℕ → Result HealthSnapshot
snapshot cache now = do
  require (is_bounded now) out_of_range
  streams ← refresh_all now cache.current.streams
  checked_snapshot
      (updated cache.current (is_old now cache.current.heartbeat_ns cache.stale_after_ns) streams)
