-- ===== src/Daemon/Health/Total.antt =====
-- src/scryntic/daemon/health.py: reading a snapshot does not raise, and publishing keeps its order.
use scryntic.Prelude.{
  ℕ, ◌≤◌, ◌≡◌, Bool, true, List, [], ◌∷◌, arith, All, length, map, length-map, refl, ap, ok, err,
  leb,
}
use scryntic.Daemon.Health.Snapshot.{
  source, stale, StreamHealth, HealthSnapshot, checked_stream, checked_snapshot, same_fault,
  ordinals, distinct, max_integer,
}
use scryntic.Daemon.Health.{
  age, refreshed, refresh_all, with_fault, updated, HealthCache, publish, snapshot,
}
use scryntic.Daemon.Health.Faults.{distinct-with_fault, length-distinct}
use scryntic.Daemon.Health.Fresh.{expired, read}

refreshed-checked :
    (now : ℕ) (s : StreamHealth)
    → now ≤ max_integer
    → checked_stream s ≡ ok s
    → checked_stream (refreshed now s) ≡ ok (refreshed now s)
unfolding refreshed age checked_stream
refreshed-checked now s n h = ground arith

refresh_all-total :
    (now : ℕ) (streams : List StreamHealth)
    → now ≤ max_integer
    → All (λ s. checked_stream s ≡ ok s) streams
    → refresh_all now streams ≡ ok (map (refreshed now) streams)
unfolding refresh_all
refresh_all-total now [] n h = refl
refresh_all-total now (s ∷ streams) n h =
    rw (refreshed-checked now s n h.0, refresh_all-total now streams n h.1) refl

ordinals-refreshed :
    (now : ℕ) (streams : List StreamHealth)
    → ordinals (map (refreshed now) streams) ≡ ordinals streams
unfolding refreshed
ordinals-refreshed now [] = refl
ordinals-refreshed now (s ∷ streams) = ap (λ os. s.ordinal ∷ os) (ordinals-refreshed now streams)

checked_snapshot-updated :
    (current : HealthSnapshot) (old : Bool) (streams : List StreamHealth)
    → checked_snapshot current ≡ ok current
    → length streams ≡ length current.streams
    → ordinals streams ≡ ordinals current.streams
    → distinct same_fault (updated current old streams).faults ≡ true
    → length (updated current old streams).faults ≤ 11
    → checked_snapshot (updated current old streams) ≡ ok (updated current old streams)
unfolding checked_snapshot updated
checked_snapshot-updated current old streams h n o d f = ground arith

updated-faults :
    (current : HealthSnapshot) (old : Bool) (streams : List StreamHealth)
    → checked_snapshot current ≡ ok current
    → distinct same_fault (updated current old streams).faults ≡ true
unfolding updated checked_snapshot
updated-faults current old streams h =
    let d : distinct same_fault current.faults ≡ true = ground arith in
    distinct-with_fault _ source (with_fault old stale current.faults)
      (distinct-with_fault old stale current.faults d)

-- Where the cached snapshot and its streams are ones that the constructors accept and the clock
-- value is in range, reading a snapshot returns one, and the constructor accepts it again.
pub snapshot_total :
    (cache : HealthCache) (now : ℕ)
    → checked_snapshot cache.current ≡ ok cache.current
    → All (λ s. checked_stream s ≡ ok s) cache.current.streams
    → now ≤ max_integer
    → (h : HealthSnapshot) × (snapshot cache now ≡ ok h) × (checked_snapshot h ≡ ok h)
unfolding snapshot
snapshot_total cache now valid streams n =
    let fresh = map (refreshed now) cache.current.streams in
    let faults = updated-faults cache.current (expired cache now) fresh valid in
    let again =
      checked_snapshot-updated cache.current (expired cache now) fresh valid
        (length-map (refreshed now) cache.current.streams)
        (ordinals-refreshed now cache.current.streams) faults (length-distinct _ faults) in
    let made = refresh_all-total now cache.current.streams n streams in
    let b : leb now max_integer ≡ true = ground arith in (read cache now, rw (b, made) again, again)

-- The owner publishes; a snapshot that is refused leaves the cache as it was.
pub publish_all : HealthCache → List HealthSnapshot → HealthCache
publish_all cache [] = cache
publish_all cache (s ∷ ss) = publish_all (elim (publish cache s) [ ok c ↦ c | err e ↦ cache ]) ss

publish-later :
    (cache : HealthCache) (s : HealthSnapshot)
    → let next : HealthCache = elim (publish cache s) [ ok c ↦ c | err e ↦ cache ] in
      (cache.current.sampled_at_ns ≤ next.current.sampled_at_ns)
      × (s.sampled_at_ns ≤ next.current.sampled_at_ns)
unfolding publish
publish-later cache s = ground arith

-- Whatever is published, the sample that the cache shows is at least as late as the first one and
-- as each one that was published.
pub publish_all-latest :
    (cache : HealthCache) (ss : List HealthSnapshot)
    → let final = (publish_all cache ss).current.sampled_at_ns in
      (cache.current.sampled_at_ns ≤ final) × All (λ s. s.sampled_at_ns ≤ final) ss
unfolding publish_all
publish_all-latest cache [] = (omega arith, tt)
publish_all-latest cache (s ∷ ss) =
    let next : HealthCache = elim (publish cache s) [ ok c ↦ c | err e ↦ cache ] in
    let (later, rest) = publish_all-latest next ss in
    let (kept, taken) = publish-later cache s in (omega arith, (omega arith, rest))
