-- ===== src/Research/Targets/Series.antt =====
-- src/scryntic/research/targets.py: the bars, `HourlySeries.__init__` and `_select`. A Python
-- `Decimal` that is finite is an integer with a power of ten. `hash` stands for `_key`, the SHA-256
-- of an object's canonical JSON.
use scryntic.Prelude.{
  ℕ, ◌+◌, ◌*◌, ◌%◌, String, Bool, true, false, not, ◌&&◌, ◌||◌, Option, none, some, List, [], ◌∷◌,
  ◌++◌, ltb, leb, ◌==◌, length, if◌then◌else◌, Result, ok, err, value_error, refuse, ◌>>=◌, ◌>>◌,
  keep, last?,
}
use scryntic.Prelude.Int.{ℤ, pos, ltb_ℤ, eq_ℤ}
use scryntic.Prelude.Text.{codes}
use scryntic.Domain.Validation.{digest}

abbrev pub hour_ns : ℕ
hour_ns = 3_600_000_000_000

abbrev pub day_ns : ℕ
day_ns = 24 * hour_ns

abbrev pub issue_delay_ns : ℕ
issue_delay_ns = 60_000_000_000

abbrev pub max_hourly_rows : ℕ
max_hourly_rows = 120_000

pub record Decimal : Type 0 where
  pub coefficient : ℤ
  pub exponent : ℤ

pub data Plane : Type 0 where
  historical_reconstruction as_observed : Plane

pub record SeriesKey : Type 0 where
  pub source_id : String
  pub venue : String
  pub category : String
  pub instrument : String
  pub snapshot_sha256 : String
  pub availability_plane : Plane

pub record HourlyBar : Type 0 where
  pub start_ns : ℕ
  pub close : Decimal
  pub raw_sha256 : String
  pub known_at_ns : Option ℕ
  pub revision : ℕ
  pub quality_ok : Bool
  pub final : Bool

is_bad_name : String → Bool
is_bad_name s = length (codes s) == 0 || ltb 128 (length (codes s))

-- `SeriesKey.__post_init__`
unfoldable pub checked_key : SeriesKey → Result SeriesKey
unfolding is_bad_name
checked_key key = do
  refuse
      (is_bad_name key.source_id
        || (is_bad_name key.venue || (is_bad_name key.category || is_bad_name key.instrument)))
      (value_error "Invalid series identity")
  digest key.snapshot_sha256
  ok key

known_too_soon : ℕ → Option ℕ → Bool
known_too_soon start none = false
known_too_soon start (some known) = ltb known (start + hour_ns)

-- `HourlyBar.__post_init__`
unfoldable pub checked_bar : HourlyBar → Result HourlyBar
unfolding known_too_soon
checked_bar bar = do
  refuse (not (bar.start_ns % hour_ns == 0)) (value_error "Hourly bar must be UTC aligned")
  digest bar.raw_sha256
  refuse (known_too_soon bar.start_ns bar.known_at_ns) (value_error "Integer below allowed minimum")
  ok bar

abbrev pub Versions : Type 0
Versions = List (ℕ × List HourlyBar)

-- `versions.get(start)`
unfoldable pub versions_at : ℤ → Versions → Option (List HourlyBar)
versions_at start [] = none
versions_at start ((k, bars) ∷ rest) =
    if eq_ℤ (pos k) start then some bars else versions_at start rest

-- `versions.setdefault(start, []).append(bar)`
unfoldable pub add_version : HourlyBar → Versions → Versions
add_version bar [] = (bar.start_ns, bar ∷ []) ∷ []
add_version bar ((k, bars) ∷ rest) =
    if k == bar.start_ns then (k, bars ++ bar ∷ []) ∷ rest else (k, bars) ∷ add_version bar rest

is_present {ℓ} : {A : Type ℓ} → Option A → Bool
is_present none = false
is_present (some a) = true

not_increasing : Option HourlyBar → ℕ → Bool
not_increasing none known = false
not_increasing (some prior) known = elim prior.known_at_ns [
  | none ↦ true
  | some earlier ↦ leb known earlier
]

latest_version : Option (List HourlyBar) → Option HourlyBar
latest_version none = none
latest_version (some bars) = last? bars

-- `_validate_revision`
unfoldable pub validate_revision : Plane → HourlyBar → Option (List HourlyBar) → Result (Unit {0})
unfolding is_present not_increasing latest_version
validate_revision historical_reconstruction bar prior =
    refuse (is_present bar.known_at_ns || is_present prior)
      (value_error "Historical revision or availability is unqualified")
validate_revision as_observed bar prior = elim bar.known_at_ns [
  | none ↦ err (value_error "Observed revision needs recorded availability")
  | some known ↦
      refuse (not_increasing (latest_version prior) known)
        (value_error "Observed revisions need increasing knowledge time")
]

-- `previous is not None and marker <= previous`
out_of_order : Option (ℕ × ℕ) → ℕ → ℕ → Bool
out_of_order none start revision = false
out_of_order (some (s, r)) start revision = ltb start s || (start == s && leb revision r)

-- the loop of `HourlySeries.__init__`
unfoldable pub add_bars : Plane → Option (ℕ × ℕ) → Versions → List HourlyBar → Result Versions
unfolding out_of_order
add_bars plane previous versions [] = ok versions
add_bars plane previous versions (bar ∷ bars) = do
  refuse (out_of_order previous bar.start_ns bar.revision)
      (value_error "Hourly input must be ordered with distinct revisions")
  validate_revision plane bar (versions_at (pos bar.start_ns) versions)
  add_bars plane (some (bar.start_ns, bar.revision)) (add_version bar versions) bars

-- A value of the objects that `_key` hashes.
pub data Field : Type 0 where
  text : String → Field
  number : ℕ → Field
  texts : List String → Field
  missing : Field

pub record HourlySeries : Type 0 where
  pub key : SeriesKey
  pub series_identity_key : String
  pub versions : Versions
  pub first_start_ns : ℕ
  pub last_end_ns : ℕ
  pub row_count : ℕ

unfoldable pub plane_name : Plane → String
plane_name historical_reconstruction = "historical-reconstruction"
plane_name as_observed = "as-observed"

last_start : HourlyBar → List HourlyBar → ℕ
last_start bar [] = bar.start_ns
last_start bar (next ∷ bars) = last_start next bars

-- `HourlySeries.__init__`
unfoldable pub new_series :
    (List (String × Field) → String) → SeriesKey → List HourlyBar → Result HourlySeries
unfolding last_start
new_series hash key [] = err (value_error "Empty or unbounded hourly input")
new_series hash key (first ∷ bars) = do
  refuse (ltb max_hourly_rows (length (first ∷ bars)))
      (value_error "Empty or unbounded hourly input")
  versions ← add_bars key.availability_plane none [] (first ∷ bars)
  ok (record {
    key = key;
    series_identity_key = hash (
        ("source_id", text key.source_id)
        ∷ ("venue", text key.venue)
        ∷ ("category", text key.category)
        ∷ ("instrument", text key.instrument)
        ∷ ("availability_plane", text (plane_name key.availability_plane))
        ∷ []);
    versions = versions;
    first_start_ns = first.start_ns;
    last_end_ns = last_start first bars + hour_ns;
    row_count = length (first ∷ bars);
  })

-- `bar.known_at_ns is not None and bar.known_at_ns <= as_of`
unfoldable pub is_known_by : ℕ → HourlyBar → Bool
is_known_by as_of bar = elim bar.known_at_ns [ none ↦ false | some known ↦ leb known as_of ]

-- The pair that `_select` returns: a bar, or a reason.
pub data Selection : Type 0 where
  chosen : HourlyBar → Selection
  excluded : String → Selection

-- the tests of `_select` on the bar that it takes
unfoldable pub qualify : Option HourlyBar → Selection
qualify none = excluded "not-yet-available"
qualify (some bar) =
    if not bar.final
    then excluded "not-final"
    else if not bar.quality_ok
    then excluded "time-quality"
    else if not (ltb_ℤ (pos 0) bar.close.coefficient)
    then excluded "nonpositive-price"
    else chosen bar

first? : List HourlyBar → Option HourlyBar
first? [] = none
first? (bar ∷ bars) = some bar

-- `_select`, with the versions of its start
unfoldable pub select_version : Plane → Option ℕ → Option (List HourlyBar) → Result Selection
unfolding first?
select_version plane as_of none = ok (excluded "missing-constituent")
select_version historical_reconstruction as_of (some bars) = ok (qualify (first? bars))
select_version as_observed none (some bars) =
    err (value_error "Observed selection needs an as-of cutoff")
select_version as_observed (some cutoff) (some bars) =
    ok (qualify (last? (keep (is_known_by cutoff) bars)))

unfoldable pub select : HourlySeries → ℤ → Option ℕ → Result Selection
select s start as_of = select_version s.key.availability_plane as_of (versions_at start s.versions)
