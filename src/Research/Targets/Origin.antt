-- ===== src/Research/Targets/Origin.antt =====
-- src/scryntic/research/targets.py: `origin` and `outcome`.
use scryntic.Prelude.{
  ℕ, ◌+◌, ◌-◌, ◌*◌, ◌/◌, ◌%◌, String, Bool, true, false, not, ◌||◌, Option, none, some, List, [],
  ◌∷◌, ltb, ◌==◌, any, Result, ok, err, value_error, refuse, require, ◌>>=◌, ◌>>◌,
}
use scryntic.Prelude.Int.{ℤ, pos, ◌-ℤ◌}
use scryntic.Prelude.Text.{str_eq}
use scryntic.Domain.Validation.{digest}
use scryntic.Research.Targets.Series.{
  Plane, historical_reconstruction, as_observed, HourlyBar, HourlySeries, Decimal, Field, text,
  number, missing, hour_ns, issue_delay_ns, plane_name,
}
use scryntic.Research.Targets.Record.{
  Kit, starts_from, Collected, all_chosen, stopped, collect, known_at, last_close, raw_hashes,
  OriginRecord, OutcomeRecord, below_minimum, check_cutoff,
}

same_plane : Plane → Plane → Bool
same_plane historical_reconstruction historical_reconstruction = true
same_plane as_observed as_observed = true
same_plane _ _ = false

optional_text : Option String → Field
optional_text none = missing
optional_text (some s) = text s

module _ (kit : Kit) where
  origin_key_of : HourlySeries → String → ℕ → ℕ → String
  origin_key_of s policy origin_end horizon = kit.hash (
      ("source_id", text s.key.source_id)
      ∷ ("venue", text s.key.venue)
      ∷ ("category", text s.key.category)
      ∷ ("instrument", text s.key.instrument)
      ∷ ("policy_sha256", text policy)
      ∷ ("origin_end_ns", number origin_end)
      ∷ ("horizon_seconds", number horizon)
      ∷ ("price_basis", text "last-trade-close")
      ∷ ("availability_plane", text (plane_name s.key.availability_plane))
      ∷ [])

  refused : HourlySeries → String → ℕ → ℕ → String → OriginRecord
  refused s key origin_end horizon reason = record {
    origin_key = key;
    series_identity_key = s.series_identity_key;
    input_version_key = none;
    recipe_sha256 = none;
    feature_snapshot_sha256 = none;
    origin_end_ns = origin_end;
    horizon_seconds = horizon;
    issue_cutoff_ns = origin_end + issue_delay_ns;
    origin_close = none;
    known_at_ns = none;
    evidence_class = s.key.availability_plane;
    eligible = false;
    reason = some reason;
  }

  issued : HourlySeries → String → ℕ → ℕ → ℕ → List HourlyBar → Option ℕ → Decimal → OriginRecord
  issued s key origin_end horizon lookback bars known close =
      let recipe =
        kit.hash (
          ("operation", text "pi02-close-history-v1") ∷ ("lookback_hours", number lookback) ∷ []) in
      let features = kit.hash (
        ("snapshot_sha256", text s.key.snapshot_sha256) ∷ ("constituents", raw_hashes bars) ∷ []) in
      record {
        origin_key = key;
        series_identity_key = s.series_identity_key;
        input_version_key = some (
            kit.hash (
              ("origin_key", text key)
              ∷ ("recipe_sha256", text recipe)
              ∷ ("feature_snapshot_sha256", text features)
              ∷ []));
        recipe_sha256 = some recipe;
        feature_snapshot_sha256 = some features;
        origin_end_ns = origin_end;
        horizon_seconds = horizon;
        issue_cutoff_ns = origin_end + issue_delay_ns;
        origin_close = some close;
        known_at_ns = known;
        evidence_class = s.key.availability_plane;
        eligible = true;
        reason = none;
      }

  -- the part of `origin` after its loop
  unfoldable pub decided : HourlySeries → String → ℕ → ℕ → ℕ → Collected → Result OriginRecord
  unfolding refused issued
  decided s key origin_end horizon lookback (stopped reason) =
      ok (refused s key origin_end horizon reason)
  decided s key origin_end horizon lookback (all_chosen bars) = do
    close ← last_close bars
    known ← known_at s.key.availability_plane bars
    ok (issued s key origin_end horizon lookback bars known close)

  -- the starts of the bars that `origin` reads
  abbrev pub lookback_starts : ℕ → ℕ → List ℤ
  lookback_starts origin_end lookback =
      starts_from (pos origin_end -ℤ pos (lookback * hour_ns)) lookback hour_ns

  unfoldable pub origin : HourlySeries → ℕ → ℕ → String → ℕ → Result OriginRecord
  unfolding origin_key_of
  origin s origin_end horizon policy lookback = do
    refuse (ltb origin_end hour_ns) below_minimum
    digest policy
    refuse (ltb lookback 1) below_minimum
    refuse
        (not (origin_end % hour_ns == 0)
          || (not (any (λ h. h == horizon) (3600 ∷ 86400 ∷ 604800 ∷ 2419200 ∷ []))
              || ltb 672 lookback))
        (value_error "Unsupported PI02 origin or horizon")
    collected ← collect s (some (origin_end + issue_delay_ns)) (lookback_starts origin_end lookback)
    decided s (origin_key_of s policy origin_end horizon) origin_end horizon lookback collected

  abbrev pub endpoint_of : OriginRecord → ℕ
  endpoint_of o = o.origin_end_ns + o.horizon_seconds * 1_000_000_000

  -- the starts of the bars that `outcome` reads
  abbrev pub outcome_starts : OriginRecord → List ℤ
  outcome_starts o =
      starts_from (pos o.origin_end_ns)
        ((o.horizon_seconds * 1_000_000_000 + hour_ns - 1) / hour_ns) hour_ns

  scored : OriginRecord → Option ℕ → String → Decimal → OutcomeRecord
  scored o known lineage value = record {
    origin_key = o.origin_key;
    version_key = some (
        kit.hash (
          ("origin_key", text o.origin_key)
          ∷ ("input_version_key", optional_text o.input_version_key)
          ∷ ("outcome_lineage_sha256", text lineage)
          ∷ ("target_value", text (kit.show value))
          ∷ []));
    endpoint_ns = endpoint_of o;
    value = some value;
    matured_at_ns = known;
    evidence_class = o.evidence_class;
    raw_lineage_sha256 = some lineage;
    reason = none;
  }

  -- the part of `outcome` after its loop
  unfoldable pub matured : HourlySeries → OriginRecord → Decimal → Collected → Result OutcomeRecord
  unfolding scored optional_text
  matured s o close (stopped reason) = ok (record {
    origin_key = o.origin_key;
    version_key = none;
    endpoint_ns = endpoint_of o;
    value = none;
    matured_at_ns = none;
    evidence_class = o.evidence_class;
    raw_lineage_sha256 = none;
    reason = some reason;
  })
  matured s o close (all_chosen bars) = do
    last ← last_close bars
    known ← known_at s.key.availability_plane bars
    let lineage =
        kit.hash (("endpoint", number (endpoint_of o)) ∷ ("constituents", raw_hashes bars) ∷ [])
    ok (scored o known lineage (kit.log_ratio last close))

  scorable : OriginRecord → Result Decimal
  scorable o = elim o.origin_close [
    | none ↦ err (value_error "Cannot score ineligible origin")
    | some close ↦ (do require o.eligible (value_error "Cannot score ineligible origin"); ok close)
  ]

  unfoldable pub outcome : HourlySeries → OriginRecord → Option ℕ → Result OutcomeRecord
  unfolding scorable same_plane optional_text
  outcome s o score_as_of = do
    close ← scorable o
    require (str_eq o.series_identity_key s.series_identity_key)
        (value_error "Origin belongs to another series")
    require (same_plane s.key.availability_plane o.evidence_class)
        (value_error "Origin evidence class differs from series")
    check_cutoff s.key.availability_plane score_as_of (endpoint_of o + issue_delay_ns)
        "Observed scoring needs an as-of cutoff"
    collected ← collect s score_as_of (outcome_starts o)
    matured s o close collected
