-- ===== src/Daemon/Health/Snapshot.antt =====
-- src/scryntic/daemon/health.py: the values of a health snapshot and their constructors. A field
-- that the code holds to be at least 0 is an ℕ.
use scryntic.Prelude.{
  ℕ, ◌^◌, ◌-◌, Bool, true, not, ◌&&◌, Option, none, some, List, [], ◌∷◌, ltb, leb, ◌==◌, length,
  all, any, map, Result, ok, Error, value_error, require, refuse, ◌>>◌,
}
use scryntic.Prelude.Int.{ℤ, abs}

abbrev pub max_streams : ℕ
max_streams = 64

abbrev pub max_integer : ℕ
max_integer = 2 ^ 63 - 1

pub data State : Type 0 where
  starting healthy degraded stopping failed : State

pub data Fault : Type 0 where
  none_fault source clock storage backpressure normalization : Fault
  publication sync jobs shutdown stale : Fault

pub data ClockStatus : Type 0 where
  clock_unknown clock_degraded clock_healthy : ClockStatus

pub data ShutdownPhase : Type 0 where
  none_phase intake drain close complete incomplete : ShutdownPhase

pub record StreamHealth : Type 0 where
  pub ordinal : ℕ
  pub last_received_monotonic_ns : ℕ
  pub last_heartbeat_monotonic_ns : ℕ
  pub last_received_utc_ns : Option ℕ
  pub coverage_start_ns : ℕ
  pub coverage_end_ns : ℕ
  pub connected : Bool
  pub coverage_pending : ℕ
  pub coverage_unknown : ℕ
  pub coverage_unrecoverable : ℕ
  pub freshness_limit_ns : ℕ
  pub received_age_ns : Option ℕ
  pub heartbeat_age_ns : Option ℕ
  pub stale : Bool
  pub data_stale : Bool
  pub heartbeat_stale : Bool

pub record HealthSnapshot : Type 0 where
  pub state : State
  pub sampled_at_ns : ℕ
  pub heartbeat_ns : ℕ
  pub live : Bool
  pub ready : Bool
  pub streams : List StreamHealth
  pub received : ℕ
  pub durably_committed : ℕ
  pub normalized : ℕ
  pub published : ℕ
  pub clock_status : ClockStatus
  pub clock_offset_ns : Option ℤ
  pub clock_uncertainty_ns : Option ℕ
  pub clock_evidence_age_ns : Option ℕ
  pub clock_epoch : ℕ
  pub queue_depth : ℕ
  pub queue_capacity : ℕ
  pub backpressure : Bool
  pub storage_available_bytes : ℕ
  pub storage_reserve_bytes : ℕ
  pub normalization_fault : Bool
  pub publication_fault : Bool
  pub sync_enabled : Bool
  pub sync_healthy : Bool
  pub jobs_pending : ℕ
  pub jobs_running : ℕ
  pub jobs_failed : ℕ
  pub jobs_interrupted : ℕ
  pub jobs_cancelled : ℕ
  pub jobs_expired : ℕ
  pub shutdown_intake_stopped : Bool
  pub shutdown_pending : ℕ
  pub shutdown_phase : ShutdownPhase
  pub shutdown_deadline_ns : Option ℕ
  pub unfinished_operations : ℕ
  pub faults : List Fault

-- `_integer`
abbrev pub is_bounded : ℕ → Bool
is_bounded n = leb n max_integer

abbrev pub is_bounded_option : Option ℕ → Bool
is_bounded_option none = true
is_bounded_option (some n) = is_bounded n

-- `_integer(value, signed=True)`
is_bounded_offset : Option ℤ → Bool
is_bounded_offset none = true
is_bounded_offset (some z) = is_bounded (abs z)

abbrev pub out_of_range : Error
out_of_range = value_error "health integer is outside its bounded range"

-- `StreamHealth.__post_init__`
unfoldable pub checked_stream : StreamHealth → Result StreamHealth
checked_stream s = do
  require
      (all is_bounded (
        s.ordinal ∷ s.last_received_monotonic_ns ∷ s.last_heartbeat_monotonic_ns
        ∷ s.coverage_start_ns ∷ s.coverage_end_ns ∷ s.coverage_pending ∷ s.coverage_unknown
        ∷ s.coverage_unrecoverable ∷ s.freshness_limit_ns ∷ []))
      out_of_range
  refuse (s.freshness_limit_ns == 0) (value_error "stream freshness limit must be positive")
  require
      (all is_bounded_option (s.received_age_ns ∷ s.heartbeat_age_ns ∷ s.last_received_utc_ns ∷ []))
      out_of_range
  ok s

-- the position of a member in the class
unfoldable pub fault_code : Fault → ℕ
fault_code none_fault = 0
fault_code source = 1
fault_code clock = 2
fault_code storage = 3
fault_code backpressure = 4
fault_code normalization = 5
fault_code publication = 6
fault_code sync = 7
fault_code jobs = 8
fault_code shutdown = 9
fault_code stale = 10

abbrev pub same_fault : Fault → Fault → Bool
same_fault a b = fault_code a == fault_code b

-- `len(set(values)) == len(values)`
unfoldable pub distinct {ℓ} : {A : Type ℓ} → (A → A → Bool) → List A → Bool
distinct same [] = true
distinct same (x ∷ xs) = not (any (same x) xs) && distinct same xs

abbrev pub same_ordinal : ℕ → ℕ → Bool
same_ordinal a b = a == b

abbrev pub ordinals : List StreamHealth → List ℕ
ordinals = map (λ s. s.ordinal)

-- the numbers that `HealthSnapshot.__post_init__` bounds
abbrev pub bounded_numbers : HealthSnapshot → List ℕ
bounded_numbers h =
    h.sampled_at_ns ∷ h.heartbeat_ns ∷ h.received ∷ h.durably_committed ∷ h.normalized ∷ h.published
    ∷ h.clock_epoch ∷ h.queue_depth ∷ h.queue_capacity ∷ h.storage_available_bytes
    ∷ h.storage_reserve_bytes ∷ h.jobs_pending ∷ h.jobs_running ∷ h.jobs_failed ∷ h.jobs_interrupted
    ∷ h.jobs_cancelled ∷ h.jobs_expired ∷ h.shutdown_pending ∷ h.unfinished_operations ∷ []

-- `HealthSnapshot.__post_init__`
unfoldable pub checked_snapshot : HealthSnapshot → Result HealthSnapshot
unfolding is_bounded_offset
checked_snapshot h = do
  refuse (ltb max_streams (length h.streams))
      (value_error "health streams must be a bounded typed tuple")
  require (distinct same_ordinal (ordinals h.streams))
      (value_error "health stream ordinals must be unique")
  require (leb (length h.faults) 11 && distinct same_fault h.faults)
      (value_error "health faults must be unique closed enums")
  require (all is_bounded (bounded_numbers h)) out_of_range
  require (is_bounded_offset h.clock_offset_ns) out_of_range
  require
      (all is_bounded_option
        (h.clock_uncertainty_ns ∷ h.clock_evidence_age_ns ∷ h.shutdown_deadline_ns ∷ []))
      out_of_range
  ok h
