-- ===== src/Research/Targets/Partition.antt =====
-- src/scryntic/research/targets.py: `resample` says of each bucket that it is a bar or excluded.
use scryntic.Prelude.{
  ℕ, zero, suc, ◌+◌, ◌-◌, ◌/◌, ◌≡◌, String, Option, List, [], ◌∷◌, arith, if◌then◌else◌, ◌==◌, ok,
  >>=-returns, subst,
}
use scryntic.Research.Targets.Series.{HourlySeries}
use scryntic.Research.Targets.Record.{
  Kit, ResampledBar, Bucket, complete_bucket, excluded_bucket, ResampleResult,
}
use scryntic.Research.Targets.Resample.{resample_bucket, with_bucket, resample_from, resample}

-- how often a bucket stands among the bars, among the exclusions, and in the range
abbrev pub count_bars : ℕ → List ResampledBar → ℕ
count_bars b [] = 0
count_bars b (bar ∷ bars) = (if bar.start_ns == b then 1 else 0) + count_bars b bars

abbrev pub count_exclusions : ℕ → List (ℕ × String) → ℕ
count_exclusions b [] = 0
count_exclusions b ((e, reason) ∷ rest) = (if e == b then 1 else 0) + count_exclusions b rest

abbrev pub count_range : ℕ → ℕ → ℕ → ℕ → ℕ
count_range b start interval zero = 0
count_range b start interval (suc n) =
    (if start == b then 1 else 0) + count_range b (start + interval) interval n

resample_bucket-start :
    (kit : Kit) (s : HourlySeries) (bucket interval : ℕ) (as_of : Option ℕ) (bar : ResampledBar)
    → resample_bucket kit s bucket interval as_of ≡ ok (complete_bucket bar)
    → bar.start_ns ≡ bucket
unfolding resample_bucket
resample_bucket-start kit s bucket interval as_of bar h = ground arith

with_bucket-counts :
    (kit : Kit) (s : HourlySeries) (bucket interval : ℕ) (as_of : Option ℕ) (made : Bucket)
    (rest : ResampleResult) (b n : ℕ)
    → resample_bucket kit s bucket interval as_of ≡ ok made
    → count_bars b rest.bars + count_exclusions b rest.exclusions ≡ n
    → count_bars b (with_bucket kit bucket made rest).bars
        + count_exclusions b (with_bucket kit bucket made rest).exclusions
      ≡ (if bucket == b then 1 else 0) + n
unfolding with_bucket
with_bucket-counts kit s bucket interval as_of (complete_bucket bar) rest b n h e =
    ground (arith, resample_bucket-start kit s bucket interval as_of bar h)
with_bucket-counts kit s bucket interval as_of (excluded_bucket reason) rest b n h e = ground arith

resample_from-counts :
    (kit : Kit) (s : HourlySeries) (start interval : ℕ) (as_of : Option ℕ) (n : ℕ)
    (r : ResampleResult) (b : ℕ)
    → resample_from kit s start interval as_of n ≡ ok r
    → count_bars b r.bars + count_exclusions b r.exclusions ≡ count_range b start interval n
unfolding resample_from
resample_from-counts kit s start interval as_of zero r b h = ground arith
resample_from-counts kit s start interval as_of (suc n) r b h =
    let (made, after, first) = >>=-returns (resample_bucket kit s start interval as_of) h in
    let (rest, whole, others) =
      >>=-returns (resample_from kit s (start + interval) interval as_of n) after in
    let same : with_bucket kit start made rest ≡ r = ground arith in
    let counted = resample_from-counts kit s (start + interval) interval as_of n rest b others in
    subst
      (λ x.
        count_bars b x.bars + count_exclusions b x.exclusions
        ≡ count_range b start interval (suc n))
      same (with_bucket-counts kit s start interval as_of made rest b _ first counted)

-- When a resampling returns, each bucket of its range stands exactly as often among the bars and
-- the exclusions together as in the range.
pub resample-partition :
    (kit : Kit) (s : HourlySeries) (start end : ℕ) (as_of : Option ℕ) (interval : ℕ)
    (r : ResampleResult) (b : ℕ)
    → resample kit s start end as_of interval ≡ ok r
    → count_bars b r.bars + count_exclusions b r.exclusions
      ≡ count_range b start interval ((end - start) / interval)
unfolding resample
resample-partition kit s start end as_of interval r b h =
    resample_from-counts kit s start interval as_of ((end - start) / interval) r b (ground arith)
