-- ===== src/Tests/Research.antt =====
-- src/scryntic/research/targets.py: a series of two hours.
use scryntic.Domain.Validation.{digest}
use scryntic.Prelude.{ℕ, ◌+◌, ◌*◌, ◌/◌, ◌≤◌, ◌≡◌, String, true, none, some, [], ◌∷◌, ok, refl}
use scryntic.Prelude.Int.{◌-ℤ◌, pos, negsuc}
use scryntic.Research.Targets.Series.{
  qualify, select_version, select, add_version, validate_revision, add_bars, Decimal, as_observed,
  SeriesKey, HourlyBar, HourlySeries, Versions, hour_ns, issue_delay_ns, new_series, versions_at,
  is_known_by,
}
use scryntic.Research.Targets.Record.{
  check_cutoff, known_at, collect, Kit, OriginRecord, OutcomeRecord, ResampleResult, starts_from,
}
use scryntic.Research.Targets.Resample.{resample_bucket, resample_from, resample}
use scryntic.Research.Targets.Origin.{matured, decided, origin, outcome}
use scryntic.Research.Targets.Sound.{origin-no_lookahead}
use scryntic.Research.Targets.Matured.{Rests, outcome-matured_at}
use scryntic.Research.Targets.Partition.{
  count_bars, count_exclusions, count_range, resample-partition,
}

abbrev kit : Kit
kit = record { hash = λ object. "hash"; log_ratio = λ a b. a; show = λ d. "0" }

abbrev sha : String
sha = "0123456789abcdef0123456789abcdef0123456789abcdef0123456789abcdef"

abbrev price : Decimal
price = record { coefficient = pos 25; exponent = negsuc 0 }

abbrev bar : ℕ → ℕ → ℕ → HourlyBar
bar start known revision = record {
  start_ns = start;
  close = price;
  raw_sha256 = sha;
  known_at_ns = some known;
  revision = revision;
  quality_ok = true;
  final = true;
}

abbrev key : SeriesKey
key = record {
  source_id = "s";
  venue = "v";
  category = "c";
  instrument = "i";
  snapshot_sha256 = sha;
  availability_plane = as_observed;
}

abbrev series : HourlySeries
series = record {
  key = key;
  series_identity_key = "hash";
  versions = (0, bar 0 hour_ns 0 ∷ []) ∷ (hour_ns, bar hour_ns (2 * hour_ns) 0 ∷ []) ∷ [];
  first_start_ns = 0;
  last_end_ns = 2 * hour_ns;
  row_count = 2;
}

series_test :
    new_series kit.hash key (bar 0 hour_ns 0 ∷ bar hour_ns (2 * hour_ns) 0 ∷ []) ≡ ok series
unfolding new_series add_bars validate_revision versions_at add_version
series_test = refl

-- the first hour is corrected a day later, and the second is gone
abbrev corrected : Versions
corrected = (0, bar 0 hour_ns 0 ∷ bar 0 (24 * hour_ns) 1 ∷ []) ∷ []

abbrev issued : OriginRecord
issued = record {
  origin_key = "hash";
  series_identity_key = "hash";
  input_version_key = some "hash";
  recipe_sha256 = some "hash";
  feature_snapshot_sha256 = some "hash";
  origin_end_ns = hour_ns;
  horizon_seconds = 3600;
  issue_cutoff_ns = hour_ns + issue_delay_ns;
  origin_close = some price;
  known_at_ns = some hour_ns;
  evidence_class = as_observed;
  eligible = true;
  reason = none;
}

issued_test : origin kit series hour_ns 3600 sha 1 ≡ ok issued
unfolding origin digest collect starts_from select select_version versions_at ◌-ℤ◌ qualify
    is_known_by decided known_at
issued_test = refl

origin-no_lookahead_example :
    origin kit (record series { versions = corrected }) hour_ns 3600 sha 1 ≡ ok issued
unfolding is_known_by starts_from versions_at ◌-ℤ◌
origin-no_lookahead_example =
    origin-no_lookahead kit series corrected hour_ns 3600 sha 1 issued refl issued_test refl
      (refl, tt)

abbrev scored : OutcomeRecord
scored = record {
  origin_key = "hash";
  version_key = some "hash";
  endpoint_ns = 2 * hour_ns;
  value = some price;
  matured_at_ns = some (2 * hour_ns);
  evidence_class = as_observed;
  raw_lineage_sha256 = some "hash";
  reason = none;
}

scored_test : outcome kit series issued (some (3 * hour_ns)) ≡ ok scored
unfolding outcome check_cutoff collect starts_from select select_version versions_at qualify
    is_known_by matured known_at
scored_test = refl

outcome-matured_at_example :
    (k : ℕ) × (some (2 * hour_ns) ≡ some k)
    × (k ≤ 3 * hour_ns)
    × (2 * hour_ns + issue_delay_ns ≤ 3 * hour_ns)
    × (issued.eligible ≡ true)
    × Rests kit series issued (3 * hour_ns) k price
outcome-matured_at_example =
    outcome-matured_at kit series issued (3 * hour_ns) scored price refl scored_test refl

abbrev hourly : ResampleResult
hourly = record {
  bars =
      record {
        start_ns = 0;
        interval_ns = hour_ns;
        close = price;
        known_at_ns = some hour_ns;
        raw_lineage_sha256 = "hash";
      }
      ∷ [];
  exclusions = (hour_ns, "not-yet-available") ∷ [];
}

hourly_test : resample kit series 0 (2 * hour_ns) (some hour_ns) hour_ns ≡ ok hourly
unfolding resample check_cutoff resample_from resample_bucket collect starts_from select
    select_version versions_at qualify is_known_by known_at
hourly_test = refl

resample-partition_example :
    count_bars hour_ns hourly.bars + count_exclusions hour_ns hourly.exclusions
    ≡ count_range hour_ns 0 hour_ns (2 * hour_ns / hour_ns)
resample-partition_example =
    resample-partition kit series 0 (2 * hour_ns) (some hour_ns) hour_ns hourly hour_ns hourly_test
