-- ===== src/Jobs/Store/Change.antt =====
-- src/scryntic/jobs/store.py: `find`, `claim`, `cancel`, `finish`, `summary`, `list`, `close`, the
-- opening of a store, and a sequence of these calls.
use scryntic.Prelude.{
  ℕ, suc, ◌+◌, String, Bool, true, false, not, ◌&&◌, ◌||◌, Option, none, some, List, [], ◌∷◌, ltb,
  leb, ◌==◌, length, if◌then◌else◌, Result, ok, err, refuse, require, value_error, job_error, ◌>>=◌,
  ◌>>◌,
}
use scryntic.Prelude.Text.{str_eq}
use scryntic.Jobs.Records.{
  Row, DurableRecord, Kind, JobState, queued, running, interrupted, succeeded, failed, cancelled,
  deadline_expired, is_terminal, is_running, is_interrupted, is_queued, is_succeeded, is_some,
  same_bool, max_attempts, checked_row,
}
use scryntic.Jobs.Store.{
  World, Store, Body, transaction, now_of, lookup, on_row, on_job, each, page, max_ns, with_state,
  Found, reread, written, read_expired, recover, submit, get, get_row,
}

-- the state that `claim` requires
abbrev pub is_claimable : Bool → JobState → Bool
is_claimable true state = is_interrupted state
is_claimable false state = is_queued state

-- the row of the UPDATE of `claim`
unfoldable pub started_row : String → ℕ → Row → Row
started_row token now r = record r {
  state = running;
  attempt = suc r.attempt;
  token = some token;
  reason = none;
  updated_ns = now;
}

unfoldable pub same_token : Option String → Option String → Bool
same_token (some a) (some b) = str_eq a b
same_token _ _ = false

-- the row of the UPDATE of `finish`
unfoldable pub finished_row : JobState → Option String → Option String → ℕ → Row → Row
finished_row state result reason updated r = record r {
  state = state;
  result_sha256 = result;
  reason = reason;
  updated_ns = updated;
}

unfoldable pub not_a_completion : JobState → Bool
not_a_completion state = not (is_terminal state) && not (is_interrupted state)

state_code : JobState → ℕ
state_code queued = 0
state_code running = 1
state_code interrupted = 2
state_code succeeded = 3
state_code failed = 4
state_code cancelled = 5
state_code deadline_expired = 6

unfoldable pub same_state : JobState → JobState → Bool
unfolding state_code
same_state a b = state_code a == state_code b

-- `SELECT state, count(*) … GROUP BY state`
unfoldable pub count_state : JobState → List Row → ℕ
count_state state [] = 0
count_state state (r ∷ rows) = (if same_state r.state state then 1 else 0) + count_state state rows

module _ {Request Artifact : Type 0} (kind : Kind Request Artifact) where
  abbrev pub JobRecord : Type 0
  JobRecord = DurableRecord Request Artifact

  unfoldable pub find_in : World → String → Option Row → Body (Option JobRecord)
  find_in w id none rows = ok (none, rows)
  find_in w id (some r) rows = do
    found ← on_row id (get_row kind w) (some r) rows
    ok (some found.0, found.1)

  unfoldable pub find : World → String → Store → Result (Option JobRecord) × Store
  unfolding find_in
  find w id s = transaction w (λ rows. find_in w id (lookup id rows) rows) s

  -- the statements of `claim` on the row, after `_expire`; none where the job is not ready
  unfoldable pub claim_found : Bool → String → ℕ → Found kind → Result (Option JobRecord × Row)
  claim_found resume token now (found, r) =
      if is_claimable resume found.state && leb max_attempts found.attempt
      then (do
        failing ← written kind (with_state failed now found.updated_ns "attempt_quota" r)
        ok (some failing.0, failing.1))
      else if is_claimable resume found.state
      then (do started ← written kind (started_row token now r); ok (some started.0, started.1))
      else ok (none, r)

  unfoldable pub claim_row : Bool → String → ℕ → Row → Result (Option JobRecord × Row)
  claim_row resume token now r = do
    found ← read_expired kind now r
    claim_found resume token now found

  unfoldable pub claim_body : World → String → Bool → Body (Option JobRecord)
  claim_body w id resume rows = do now ← now_of w; on_job id (claim_row resume w.token now) rows

  claimed_as : Result (Option JobRecord) → Result JobRecord
  claimed_as (err e) = err e
  claimed_as (ok none) = err (job_error "Job is not ready for this execution")
  claimed_as (ok (some found)) = ok found

  unfoldable pub claim : World → String → Bool → Store → Result JobRecord × Store
  unfolding claimed_as
  claim w id resume s =
      let (outcome, after) = transaction w (claim_body w id resume) s in (claimed_as outcome, after)

  unfoldable pub cancel_row : ℕ → Row → Result (Found kind)
  cancel_row now r = do
    found ← read_expired kind now r
    if is_terminal found.0.state
        then reread kind found.1
        else written kind (with_state cancelled now found.0.updated_ns "cancelled" found.1)

  unfoldable pub cancel_body : World → String → Body JobRecord
  cancel_body w id rows = do now ← now_of w; on_job id (cancel_row now) rows

  unfoldable pub cancel : World → String → Store → Result JobRecord × Store
  cancel w id s = transaction w (cancel_body w id) s

  -- `WHERE … state='running' AND attempt=? AND token=?`
  unfoldable pub is_active : JobRecord → Row → Bool
  unfolding same_token
  is_active active r =
      is_running r.state && (r.attempt == active.attempt && same_token r.token active.token)

  unfoldable pub finish_row :
      JobRecord → JobState → Option String → Option String → ℕ → Row → Result (Bool × Row)
  finish_row active state result reason now r = do
    found ← read_expired kind now r
    if not (kind.same_job found.0.job active.job)
        then ok (false, found.1)
        else if is_active active found.1
        then (do
          stored ←
              checked_row (finished_row state result reason (max_ns now found.0.updated_ns) found.1)
          ok (true, stored))
        else ok (false, found.1)

  unfoldable pub finish_body :
      World → JobRecord → JobState → Option String → Option String → Body Bool
  finish_body w active state result reason rows = do
    now ← now_of w
    on_job (kind.job_id active.job) (finish_row active state result reason now) rows

  validated : JobRecord → Option Artifact → Result (Unit {0})
  validated active none = ok tt
  validated active (some artifact) = kind.validate_artifact active artifact

  unfoldable pub result_of : Option Artifact → Option String
  result_of none = none
  result_of (some artifact) = some (kind.artifact_sha256 artifact)

  -- the checks of `finish` before the transaction
  unfoldable pub finish_checks : JobRecord → JobState → Option Artifact → Result (Unit {0})
  unfolding validated not_a_completion
  finish_checks active state artifact = do
    refuse (not_a_completion state) (job_error "Invalid job completion state")
    require (same_bool (is_succeeded state) (is_some artifact))
        (job_error "Invalid success registration")
    validated active artifact

  unfoldable pub finish :
      World → JobRecord → JobState → Option Artifact → Option String → Store → Result Bool × Store
  unfolding result_of
  finish w active state artifact reason s = elim (finish_checks active state artifact) [
    | err e ↦ (err e, s)
    | ok u ↦ transaction w (finish_body w active state (result_of artifact) reason) s
  ]

  unfoldable pub summary_body : World → Body (JobState → ℕ)
  summary_body w rows = do
    now ← now_of w
    expired ← each (read_expired kind now) rows
    ok ((λ state. count_state state expired.1), expired.1)

  unfoldable pub summary : World → Store → Result (JobState → ℕ) × Store
  summary w s = transaction w (summary_body w) s

  unfoldable pub list_body : World → ℕ → ℕ → Body (List JobRecord)
  list_body w limit offset rows = do now ← now_of w; page limit offset (read_expired kind now) rows

  unfoldable pub list : World → ℕ → ℕ → Store → Result (List JobRecord) × Store
  list w limit offset s =
      if ltb limit 1
      then (err (value_error "Integer below allowed minimum"), s)
      else if ltb 100 limit || ltb 1024 offset
      then (err (job_error "Job list outside bounds"), s)
      else transaction w (list_body w limit offset) s

  -- `__init__` on the rows of the file; a store that raises is closed
  unfoldable pub opened : World → Result (List JobRecord) × Store → Result (Unit {0}) × Store
  opened w (ok records, s) = (ok tt, s)
  opened w (err e, s) = (err e, record s { closed = true })

  unfoldable pub open_store : World → ℕ → List Row → Result (Unit {0}) × Store
  unfolding opened
  open_store w max_jobs rows =
      let s : Store = record { rows = rows; max_jobs = max_jobs; failed = false; closed = false } in
      let closed_store = record s { closed = true } in
      if ltb max_jobs 1
      then (err (value_error "Integer below allowed minimum"), closed_store)
      else if ltb 1024 max_jobs
      then (err (job_error "Job quota outside bounds"), closed_store)
      else if ltb max_jobs (length rows)
      then (err (job_error "Persisted job quota exceeded"), closed_store)
      else opened w (transaction w (recover kind w) s)

  -- The calls of an owner, and a restart that opens the file again.
  pub data Call : Type 0 where
    call_submit : Request → Call
    call_get : String → Call
    call_find : String → Call
    call_claim : String → Bool → Call
    call_cancel : String → Call
    call_finish : JobRecord → JobState → Option Artifact → Option String → Call
    call_summary : Call
    call_list : ℕ → ℕ → Call
    call_close : Call
    call_restart : ℕ → Call

  unfoldable pub run_call : World → Call → Store → Store
  run_call w (call_submit job) s = (submit kind w job s).1
  run_call w (call_get id) s = (get kind w id s).1
  run_call w (call_find id) s = (find w id s).1
  run_call w (call_claim id resume) s = (claim w id resume s).1
  run_call w (call_cancel id) s = (cancel w id s).1
  run_call w (call_finish active state artifact reason) s =
      (finish w active state artifact reason s).1
  run_call w call_summary s = (summary w s).1
  run_call w (call_list limit offset) s = (list w limit offset s).1
  run_call w call_close s = record s { closed = true }
  run_call w (call_restart max_jobs) s = (open_store w max_jobs s.rows).1

  unfoldable pub run_calls : List (World × Call) → Store → Store
  run_calls [] s = s
  run_calls ((w, c) ∷ cs) s = run_calls cs (run_call w c s)
