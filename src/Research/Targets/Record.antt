-- ===== src/Research/Targets/Record.antt =====
-- src/scryntic/research/targets.py: the records, and what the methods of `HourlySeries` share.
use scryntic.Prelude.{
  ℕ, zero, suc, String, Bool, true, false, Option, none, some, List, [], ◌∷◌, ltb, map,
  if◌then◌else◌, Result, ok, err, value_error, Error, refuse, ◌>>=◌, last?,
}
use scryntic.Prelude.Int.{ℤ, pos, ◌+ℤ◌}
use scryntic.Research.Targets.Series.{
  Plane, historical_reconstruction, as_observed, HourlyBar, HourlySeries, Decimal, Field, texts,
  chosen, excluded, select,
}

-- `_key`; and for `Decimal`, the logarithm of a quotient, here of positive values, and the text
pub record Kit : Type 0 where
  pub hash : List (String × Field) → String
  pub log_ratio : Decimal → Decimal → Decimal
  pub show : Decimal → String

-- `range(start, start + count * step, step)`
unfoldable pub starts_from : ℤ → ℕ → ℕ → List ℤ
starts_from start zero step = []
starts_from start (suc count) step = start ∷ starts_from (start +ℤ pos step) count step

-- What the loop over the hours leaves: all bars, or the reason at which it returned.
pub data Collected : Type 0 where
  all_chosen : List HourlyBar → Collected
  stopped : String → Collected

unfoldable pub with_bar : HourlyBar → Collected → Collected
with_bar bar (all_chosen bars) = all_chosen (bar ∷ bars)
with_bar bar (stopped reason) = stopped reason

unfoldable pub collect : HourlySeries → Option ℕ → List ℤ → Result Collected
unfolding with_bar
collect s as_of [] = ok (all_chosen [])
collect s as_of (start ∷ starts) = do
  selection ← select s start as_of
  let rest = collect s as_of starts
  elim selection [
    | excluded reason ↦ ok (stopped reason)
    | chosen bar ↦ (do others ← rest; ok (with_bar bar others))
  ]

unfoldable pub later_known : Option ℕ → Option ℕ → Option ℕ
later_known none known = known
later_known (some a) none = some a
later_known (some a) (some b) = some (if ltb a b then b else a)

unfoldable pub latest_known : List HourlyBar → Option ℕ
unfolding later_known
latest_known [] = none
latest_known (bar ∷ bars) = later_known bar.known_at_ns (latest_known bars)

-- `max(...) if plane == "as-observed" else None`; `max` of nothing raises
unfoldable pub known_at : Plane → List HourlyBar → Result (Option ℕ)
unfolding latest_known later_known
known_at historical_reconstruction bars = ok none
known_at as_observed bars = elim (latest_known bars) [
  | none ↦ err (value_error "max() iterable argument is empty")
  | some known ↦ ok (some known)
]

abbrev pub last_close : List HourlyBar → Result Decimal
last_close bars = elim (last? bars) [ none ↦ err Error.index_error | some bar ↦ ok bar.close ]

abbrev pub raw_hashes : List HourlyBar → Field
raw_hashes bars = texts (map (λ bar. bar.raw_sha256) bars)

pub record ResampledBar : Type 0 where
  pub start_ns : ℕ
  pub interval_ns : ℕ
  pub close : Decimal
  pub known_at_ns : Option ℕ
  pub raw_lineage_sha256 : String

pub data Bucket : Type 0 where
  complete_bucket : ResampledBar → Bucket
  excluded_bucket : String → Bucket

pub record ResampleResult : Type 0 where
  pub bars : List ResampledBar
  pub exclusions : List (ℕ × String)

pub record OriginRecord : Type 0 where
  pub origin_key : String
  pub series_identity_key : String
  pub input_version_key : Option String
  pub recipe_sha256 : Option String
  pub feature_snapshot_sha256 : Option String
  pub origin_end_ns : ℕ
  pub horizon_seconds : ℕ
  pub issue_cutoff_ns : ℕ
  pub origin_close : Option Decimal
  pub known_at_ns : Option ℕ
  pub evidence_class : Plane
  pub eligible : Bool
  pub reason : Option String

pub record OutcomeRecord : Type 0 where
  pub origin_key : String
  pub version_key : Option String
  pub endpoint_ns : ℕ
  pub value : Option Decimal
  pub matured_at_ns : Option ℕ
  pub evidence_class : Plane
  pub raw_lineage_sha256 : Option String
  pub reason : Option String

abbrev pub below_minimum : Error
below_minimum = value_error "Integer below allowed minimum"

is_observed : Plane → Bool
is_observed as_observed = true
is_observed historical_reconstruction = false

-- `plane == "as-observed"` with its two tests of the cutoff
unfoldable pub check_cutoff : Plane → Option ℕ → ℕ → String → Result (Unit {0})
check_cutoff historical_reconstruction as_of least message = ok tt
check_cutoff as_observed none least message = err (value_error message)
check_cutoff as_observed (some as_of) least message = refuse (ltb as_of least) below_minimum
