-- ===== src/Daemon/Health/Fresh.antt =====
-- src/scryntic/daemon/health.py: what a reader may conclude from a snapshot.
use scryntic.Prelude.{
  ℕ, ◌-◌, ◌≤◌, ◌<◌, ◌≡◌, Bool, true, false, List, [], ◌∷◌, arith, any, All, map, Result, ok, sym,
  ◌⊎◌, inl, inr, Bool-cases, ap, Error, require, ◌>>◌, ◌∙◌, >>=-returns,
}
use scryntic.Daemon.Health.Snapshot.{
  healthy, degraded, Fault, source, stale, StreamHealth, HealthSnapshot, checked_stream,
  checked_snapshot, is_bounded, out_of_range,
}
use scryntic.Daemon.Health.Faults.{with_fault-keeps, with_fault-adds}
use scryntic.Daemon.Health.{
  age, is_old, refreshed, refresh_all, has_fault, with_fault, updated, HealthCache, snapshot,
}

pub checked_stream_same : (s t : StreamHealth) → checked_stream s ≡ ok t → t ≡ s
unfolding checked_stream
checked_stream_same s t h = ground arith

pub checked_snapshot_same : (h k : HealthSnapshot) → checked_snapshot h ≡ ok k → k ≡ h
unfolding checked_snapshot
checked_snapshot_same h k e = ground arith

pub refresh_all-map :
    (now : ℕ) (streams fresh : List StreamHealth)
    → refresh_all now streams ≡ ok fresh
    → fresh ≡ map (refreshed now) streams
unfolding refresh_all
refresh_all-map now [] fresh h = ground arith
refresh_all-map now (s ∷ streams) fresh h =
    let (first, rest, made) = >>=-returns (checked_stream (refreshed now s)) h in
    let (others, whole, more) = >>=-returns (refresh_all now streams) rest in
    let e = checked_stream_same (refreshed now s) first made in
    let es = refresh_all-map now streams others more in cc

abbrev pub expired : HealthCache → ℕ → Bool
expired cache now = is_old now cache.current.heartbeat_ns cache.stale_after_ns

abbrev pub read : HealthCache → ℕ → HealthSnapshot
read cache now =
    updated cache.current (expired cache now) (map (refreshed now) cache.current.streams)

require-returns :
    (condition : Bool) (exception : Error) (following : Result HealthSnapshot) {h : HealthSnapshot}
    → (require condition exception >> following) ≡ ok h
    → following ≡ ok h
require-returns false exception following e = cc
require-returns true exception following e = e

pub snapshot-read :
    (cache : HealthCache) (now : ℕ) (h : HealthSnapshot)
    → snapshot cache now ≡ ok h
    → h ≡ read cache now
unfolding snapshot
snapshot-read cache now h e =
    let rest = require-returns (is_bounded now) out_of_range _ e in
    let (streams, checked, fresh) =
      >>=-returns
        {next = λ streams. checked_snapshot (updated cache.current (expired cache now) streams)}
        (refresh_all now cache.current.streams) rest in
    checked_snapshot_same (updated cache.current (expired cache now) streams) h checked
    ∙ ap (updated cache.current (expired cache now))
        (refresh_all-map now cache.current.streams streams fresh)

-- the owner's heartbeat is not older than the limit
abbrev pub HeartbeatIsFresh : HealthCache → ℕ → Type 0
HeartbeatIsFresh cache now =
    (0 < cache.current.heartbeat_ns)
    × (cache.current.heartbeat_ns ≤ now)
    × (now - cache.current.heartbeat_ns ≤ cache.stale_after_ns)

-- the stream is connected, and its last record is not older than its limit
abbrev pub StreamIsFresh : ℕ → StreamHealth → Type 0
StreamIsFresh now s =
    (s.connected ≡ true)
    × (0 < s.last_received_monotonic_ns)
    × (s.last_received_monotonic_ns ≤ now)
    × (now - s.last_received_monotonic_ns ≤ s.freshness_limit_ns)

abbrev pub stale_streams : HealthCache → ℕ → Bool
stale_streams cache now = any (λ s. s.stale) (map (refreshed now) cache.current.streams)

refreshed-fresh :
    (now : ℕ) (s : StreamHealth) → (refreshed now s).stale ≡ false → StreamIsFresh now s
unfolding refreshed age
refreshed-fresh now s h = ground arith

none_stale :
    (now : ℕ) (streams : List StreamHealth)
    → any (λ s. s.stale) (map (refreshed now) streams) ≡ false
    → All (StreamIsFresh now) streams
none_stale now [] h = tt
none_stale now (s ∷ streams) h = elim (Bool-cases (refreshed now s).stale) [
  | inl old ↦ absurd (ground arith)
  | inr new ↦ (refreshed-fresh now s new, none_stale now streams (rw new at h))
]

updated-ready :
    (current : HealthSnapshot) (old : Bool) (streams : List StreamHealth)
    → (updated current old streams).ready ≡ true
    → (old ≡ false)
      × (any (λ s. s.stale) streams ≡ false)
      × (current.ready ≡ true)
      × (current.live ≡ true)
      × ((current.state ≡ healthy) ⊎ (current.state ≡ degraded))
unfolding updated
updated-ready current old streams r = ground arith

-- A reader of a snapshot that is ready knows that the owner's heartbeat is fresh, that every stream
-- is connected and has fresh data, and that the owner had called itself ready and live, healthy or
-- degraded.
pub snapshot-ready :
    (cache : HealthCache) (now : ℕ) (h : HealthSnapshot)
    → snapshot cache now ≡ ok h
    → h.ready ≡ true
    → HeartbeatIsFresh cache now
      × All (StreamIsFresh now) cache.current.streams
      × (cache.current.ready ≡ true)
      × (cache.current.live ≡ true)
      × ((cache.current.state ≡ healthy) ⊎ (cache.current.state ≡ degraded))
snapshot-ready cache now h e r =
    let same = snapshot-read cache now h e in
    let (fresh, streams, ready, live, state) =
      updated-ready cache.current (expired cache now) (map (refreshed now) cache.current.streams)
        (ap (λ k. k.ready) (sym same) ∙ r) in
    (
      unfold is_old in ground arith,
      none_stale now cache.current.streams streams,
      ready,
      live,
      state,
    )

updated-healthy :
    (current : HealthSnapshot) (old : Bool) (streams : List StreamHealth)
    → let u = updated current old streams in
      (u.state ≡ healthy
        → (current.state ≡ healthy) × (old ≡ false) × (any (λ s. s.stale) streams ≡ false))
      × (old ≡ true → has_fault stale u.faults ≡ true)
      × (any (λ s. s.stale) streams ≡ true → has_fault source u.faults ≡ true)
      × ((f : Fault) → has_fault f current.faults ≡ true → has_fault f u.faults ≡ true)
unfolding updated
updated-healthy current old streams =
    let first = with_fault old stale current.faults in
    (
      λ s. (ground arith, ground arith, ground arith),
      λ x. with_fault-keeps _ source stale first (with_fault-adds old stale current.faults x),
      λ x. with_fault-adds _ source first x,
      λ f x. with_fault-keeps _ source f first (with_fault-keeps old stale f current.faults x),
    )

-- A snapshot whose state is healthy was healthy at its owner's, its heartbeat is fresh and so is
-- every stream. Whatever the state, a snapshot that is not fresh names the fault: `stale` for the
-- heartbeat, `source` for a stream; and no fault of the owner's is dropped.
pub snapshot-healthy :
    (cache : HealthCache) (now : ℕ) (h : HealthSnapshot)
    → snapshot cache now ≡ ok h
    → (h.state ≡ healthy
        → (cache.current.state ≡ healthy)
          × (expired cache now ≡ false)
          × (stale_streams cache now ≡ false))
      × (expired cache now ≡ true → has_fault stale h.faults ≡ true)
      × (stale_streams cache now ≡ true → has_fault source h.faults ≡ true)
      × ((f : Fault) → has_fault f cache.current.faults ≡ true → has_fault f h.faults ≡ true)
snapshot-healthy cache now h e =
    let same = snapshot-read cache now h e in
    let streams = map (refreshed now) cache.current.streams in
    let (states, old, sources, kept) = updated-healthy cache.current (expired cache now) streams in
    let faults : h.faults ≡ (read cache now).faults = ap (λ k. k.faults) same in
    (
      λ s. states (ap (λ k. k.state) (sym same) ∙ s),
      λ x. ap (has_fault stale) faults ∙ old x,
      λ x. ap (has_fault source) faults ∙ sources x,
      λ f x. ap (has_fault f) faults ∙ kept f x,
    )
