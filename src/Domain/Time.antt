-- ===== src/Domain/Time.antt =====
-- src/scryntic/domain/time.py. A number that `__post_init__` holds to be at least 0 is an ℕ.
use scryntic.Prelude.{
  ℕ, String, Bool, true, false, ◌&&◌, Option, some, Result, ok, value_error, refuse, ◌>>◌,
}
use scryntic.Prelude.Int.{ℤ}
use scryntic.Domain.Validation.{identifier}

pub data TimeUnit : Type 0 where
  second millisecond microsecond nanosecond : TimeUnit

pub record SourceTime : Type 0 where
  pub value : ℤ
  pub unit : TimeUnit

pub data QualityStatus : Type 0 where
  unknown degraded healthy : QualityStatus

pub record TimeQuality : Type 0 where
  pub epoch : String
  pub status : QualityStatus
  pub offset_ns : Option ℤ
  pub uncertainty_ns : Option ℕ
  pub evidence_age_ns : Option ℕ

pub record ClockSample : Type 0 where
  pub wall_time_ns : ℤ
  pub monotonic_ns : ℕ
  pub session_id : String
  pub quality : TimeQuality

-- `None in (offset_ns, uncertainty_ns, evidence_age_ns)`
unfoldable pub lacks_evidence : Option ℤ → Option ℕ → Option ℕ → Bool
lacks_evidence (some o) (some u) (some a) = false
lacks_evidence _ _ _ = true

abbrev pub is_healthy : QualityStatus → Bool
is_healthy healthy = true
is_healthy _ = false

-- `TimeQuality(epoch, status, offset, uncertainty, age)`
unfoldable pub time_quality :
    String → QualityStatus → Option ℤ → Option ℕ → Option ℕ → Result TimeQuality
time_quality epoch status offset uncertainty age = do
  identifier epoch
  refuse (is_healthy status && lacks_evidence offset uncertainty age)
      (value_error "Healthy clock requires bounded evidence")
  ok (record {
    epoch = epoch;
    status = status;
    offset_ns = offset;
    uncertainty_ns = uncertainty;
    evidence_age_ns = age;
  })

-- `ClockSample(wall, monotonic, session, quality)`
unfoldable pub clock_sample : ℤ → ℕ → String → TimeQuality → Result ClockSample
clock_sample wall monotonic session quality = do
  identifier session
  ok (record {
    wall_time_ns = wall;
    monotonic_ns = monotonic;
    session_id = session;
    quality = quality;
  })
