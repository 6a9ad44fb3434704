-- ===== src/Research/Targets/Resample.antt =====
-- src/scryntic/research/targets.py: `resample`.
use scryntic.Prelude.{
  ℕ, zero, suc, ◌+◌, ◌-◌, ◌*◌, ◌/◌, ◌%◌, not, ◌||◌, Option, [], ◌∷◌, ltb, leb, ◌==◌, if◌then◌else◌,
  Result, ok, value_error, refuse, ◌>>=◌, ◌>>◌,
}
use scryntic.Prelude.Int.{pos}
use scryntic.Prelude.Text.{str_eq}
use scryntic.Research.Targets.Series.{HourlySeries, number, hour_ns, day_ns, max_hourly_rows}
use scryntic.Research.Targets.Record.{
  Kit, starts_from, Collected, all_chosen, stopped, collect, known_at, last_close, raw_hashes,
  Bucket, complete_bucket, excluded_bucket, ResampleResult, below_minimum, check_cutoff,
}

module _ (kit : Kit) where
  resampled : HourlySeries → ℕ → ℕ → Collected → Result Bucket
  resampled s bucket interval (stopped reason) = ok (excluded_bucket reason)
  resampled s bucket interval (all_chosen bars) = do
    known ← known_at s.key.availability_plane bars
    close ← last_close bars
    ok (
        complete_bucket (record {
          start_ns = bucket;
          interval_ns = interval;
          close = close;
          known_at_ns = known;
          raw_lineage_sha256 =
              kit.hash (("bucket", number bucket) ∷ ("constituents", raw_hashes bars) ∷ []);
        }))

  -- `_resample_bucket`
  unfoldable pub resample_bucket : HourlySeries → ℕ → ℕ → Option ℕ → Result Bucket
  unfolding resampled
  resample_bucket s bucket interval as_of = do
    collected ← collect s as_of (starts_from (pos bucket) (interval / hour_ns) hour_ns)
    resampled s bucket interval collected

  -- one turn of the loop of `resample`, before the turns that follow
  unfoldable pub with_bucket : ℕ → Bucket → ResampleResult → ResampleResult
  with_bucket bucket (complete_bucket bar) r = record r { bars = bar ∷ r.bars }
  with_bucket bucket (excluded_bucket reason) r = record r {
    exclusions =
        (bucket, (if str_eq reason "" then "missing-constituent" else reason)) ∷ r.exclusions;
  }

  unfoldable pub resample_from : HourlySeries → ℕ → ℕ → Option ℕ → ℕ → Result ResampleResult
  unfolding with_bucket
  resample_from s bucket interval as_of zero = ok (record { bars = []; exclusions = [] })
  resample_from s bucket interval as_of (suc count) = do
    made ← resample_bucket s bucket interval as_of
    rest ← resample_from s (bucket + interval) interval as_of count
    ok (with_bucket bucket made rest)

  unfoldable pub resample : HourlySeries → ℕ → ℕ → Option ℕ → ℕ → Result ResampleResult
  resample s start end as_of interval = do
    refuse (ltb end 1 || ltb interval hour_ns) below_minimum
    refuse
        (not (interval % hour_ns == 0)
          || (ltb (28 * day_ns) interval
              || (not (start % interval == 0)
                  || (not (end % interval == 0)
                      || (leb end start || ltb max_hourly_rows ((end - start) / interval))))))
        (value_error "Invalid bounded UTC resampling range")
    check_cutoff s.key.availability_plane as_of 0 "Observed resampling needs as-of cutoff"
    resample_from s start interval as_of ((end - start) / interval)
