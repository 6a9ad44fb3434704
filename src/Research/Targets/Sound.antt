-- ===== src/Research/Targets/Sound.antt =====
-- src/scryntic/research/targets.py: an origin uses what was known at its cutoff, and no more.
use scryntic.Prelude.{ℕ, ◌+◌, ◌≤◌, ◌≡◌, true, some, List, arith, ok, refl, inl, inr, String, ◌∙◌}
use scryntic.Research.Targets.Series.{
  as_observed, HourlyBar, HourlySeries, Versions, issue_delay_ns,
}
use scryntic.Research.Targets.Record.{Kit, all_chosen, collect, known_at, OriginRecord}
use scryntic.Research.Targets.Origin.{decided, origin, lookback_starts}
use scryntic.Research.Targets.Usable.{
  Collected-cases, collect-IsUsable, collect-same, SameKnown, known_at-le,
}

origin-chosen :
    (kit : Kit) (s : HourlySeries) (end horizon : ℕ) (policy : String) (lookback : ℕ)
    (r : OriginRecord)
    → origin kit s end horizon policy lookback ≡ ok r
    → r.eligible ≡ true
    → (bars : List HourlyBar) × (collect s
          (some (end + issue_delay_ns))
          (lookback_starts kit end lookback)
        ≡ ok (all_chosen bars))
      × (known_at s.key.availability_plane bars ≡ ok r.known_at_ns)
      × (r.issue_cutoff_ns ≡ end + issue_delay_ns)
unfolding origin decided
origin-chosen kit s end horizon policy lookback r h el =
    elim (Collected-cases
      (collect s (some (end + issue_delay_ns)) (lookback_starts kit end lookback))) [
        | inr (inl (reason, f)) ↦ absurd (ground arith)
        | inr (inr (x, f)) ↦ absurd (ground arith)
        | inl (bars, f) ↦ (bars, f, ground arith, ground arith)
      ]

origin-same :
    (kit : Kit) (s : HourlySeries) (w : Versions) (end horizon : ℕ) (policy : String) (lookback : ℕ)
    (bars : List HourlyBar)
    → let starts = lookback_starts kit end lookback in
      collect s (some (end + issue_delay_ns)) starts ≡ ok (all_chosen bars)
      → collect (record s { versions = w }) (some (end + issue_delay_ns)) starts
        ≡ ok (all_chosen bars)
      → origin kit (record s { versions = w }) end horizon policy lookback
        ≡ origin kit s end horizon policy lookback
unfolding origin decided
origin-same kit s w end horizon policy lookback bars e f = rw (e, f) refl

-- An eligible origin of an observed series does not look ahead: if the versions of the bars change
-- in any way that leaves those known by the issue cutoff, of the hours before the origin, as they
-- are, then the origin is the same record.
pub origin-no_lookahead :
    (kit : Kit) (s : HourlySeries) (w : Versions) (end horizon : ℕ) (policy : String) (lookback : ℕ)
    (r : OriginRecord)
    → s.key.availability_plane ≡ as_observed
    → origin kit s end horizon policy lookback ≡ ok r
    → r.eligible ≡ true
    → SameKnown (end + issue_delay_ns) s.versions w (lookback_starts kit end lookback)
    → origin kit (record s { versions = w }) end horizon policy lookback ≡ ok r
origin-no_lookahead kit s w end horizon policy lookback r plane h el same =
    let (bars, e, known, cutoff) = origin-chosen kit s end horizon policy lookback r h el in
    origin-same kit s w end horizon policy lookback bars e
      (collect-same s w (end + issue_delay_ns) (lookback_starts kit end lookback) bars plane same e)
    ∙ h

-- An eligible origin of an observed series was known at a time that is no later than its issue
-- cutoff, which is one minute after the origin's end.
pub origin-known_at :
    (kit : Kit) (s : HourlySeries) (end horizon : ℕ) (policy : String) (lookback : ℕ)
    (r : OriginRecord)
    → s.key.availability_plane ≡ as_observed
    → origin kit s end horizon policy lookback ≡ ok r
    → r.eligible ≡ true
    → (k : ℕ) × (r.known_at_ns ≡ some k)
      × (k ≤ r.issue_cutoff_ns)
      × (r.issue_cutoff_ns ≡ end + issue_delay_ns)
origin-known_at kit s end horizon policy lookback r plane h el =
    let (bars, e, known, cutoff) = origin-chosen kit s end horizon policy lookback r h el in
    let (k, stated, le) =
      known_at-le s.key.availability_plane (end + issue_delay_ns) bars r.known_at_ns plane
        (collect-IsUsable s (end + issue_delay_ns) (lookback_starts kit end lookback) bars plane e)
        known in
    (k, stated, omega (arith, cutoff), cutoff)
