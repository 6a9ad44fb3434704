-- ===== src/Jobs/Records.antt =====
-- src/scryntic/jobs/contracts.py, durable.py and store.py: the rows of the table `jobs`, the records
-- read from them, and the methods that a subclass of `DurableJobStore` gives, as the interface
-- `Kind`. The strings of a job's state are the members of `JobState`, which the table's CHECK
-- demands of them.
use scryntic.Prelude.{
  ℕ, String, Bool, true, false, not, ◌||◌, Option, none, some, ltb, leb, ◌==◌, length, Result, ok,
  refuse, require, job_error, sqlite_error, ◌>>=◌, ◌>>◌,
}
use scryntic.Prelude.Text.{str_eq, codes}
use scryntic.Ingestion.Metadata.{Bytes}

abbrev pub max_attempts : ℕ
max_attempts = 3

pub data JobState : Type 0 where
  queued running interrupted succeeded failed cancelled deadline_expired : JobState

-- `state in TERMINAL`
abbrev pub is_terminal : JobState → Bool
is_terminal queued = false
is_terminal running = false
is_terminal interrupted = false
is_terminal _ = true

abbrev pub is_running : JobState → Bool
is_running running = true
is_running _ = false

abbrev pub is_interrupted : JobState → Bool
is_interrupted interrupted = true
is_interrupted _ = false

abbrev pub is_queued : JobState → Bool
is_queued queued = true
is_queued _ = false

abbrev pub is_succeeded : JobState → Bool
is_succeeded succeeded = true
is_succeeded _ = false

abbrev pub is_some {ℓ} : {A : Type ℓ} → Option A → Bool
is_some none = false
is_some (some a) = true

abbrev pub same_bool : Bool → Bool → Bool
same_bool true b = b
same_bool false b = not b

pub record Row : Type 0 where
  pub request_id : String
  pub request : Bytes
  pub request_sha256 : String
  pub state : JobState
  pub attempt : ℕ
  pub token : Option String
  pub result_sha256 : Option String
  pub reason : Option String
  pub updated_ns : ℕ

pub record DurableRecord (Request Artifact : Type 0) : Type 0 where
  pub job : Request
  pub state : JobState
  pub attempt : ℕ
  pub token : Option String
  pub artifact : Option Artifact
  pub reason : Option String
  pub updated_ns : ℕ

-- `_encode_job`, `_decode_job`, `_artifact`, `_validate_artifact`, the properties of a request and of
-- an artifact, and `==` of requests
pub record Kind (Request Artifact : Type 0) : Type 0 where
  pub job_id : Request → String
  pub sha256 : Request → String
  pub submitted_ns : Request → ℕ
  pub deadline_ns : Request → ℕ
  pub same_job : Request → Request → Bool
  pub encode_job : Request → Bytes
  pub decode_job : Bytes → Result Request
  pub artifact_of : Request → JobState → Option String → Result (Option Artifact)
  pub artifact_sha256 : Artifact → String
  pub validate_artifact : DurableRecord Request Artifact → Artifact → Result (Unit {0})

-- the CHECK constraints of the table, on a row that a statement writes
unfoldable pub checked_row : Row → Result Row
checked_row r = do
  require (leb r.attempt 3) sqlite_error
  require (same_bool (is_succeeded r.state) (is_some r.result_sha256)) sqlite_error
  require (same_bool (r.attempt == 0) (not (is_some r.token))) sqlite_error
  ok r

bad_token : Option String → Bool
bad_token none = false
bad_token (some token) = not (length (codes token) == 32)

module _ {Request Artifact : Type 0} (kind : Kind Request Artifact) where
  -- `_record`
  unfoldable pub read_row : Row → Result (DurableRecord Request Artifact)
  unfolding bad_token
  read_row r = do
    job ← kind.decode_job r.request
    refuse
        (not (str_eq r.request_id (kind.job_id job))
          || not (str_eq r.request_sha256 (kind.sha256 job)))
        (job_error "Persisted job identity mismatch")
    refuse (ltb max_attempts r.attempt || not (same_bool (r.attempt == 0) (not (is_some r.token))))
        (job_error "Invalid persisted attempt")
    refuse (bad_token r.token) (job_error "Invalid persisted attempt token")
    refuse (ltb r.updated_ns (kind.submitted_ns job)) (job_error "Invalid persisted job history")
    artifact ← kind.artifact_of job r.state r.result_sha256
    ok (record {
      job = job;
      state = r.state;
      attempt = r.attempt;
      token = r.token;
      artifact = artifact;
      reason = r.reason;
      updated_ns = r.updated_ns;
    })
