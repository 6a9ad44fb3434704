-- ===== src/Jobs/Store.antt =====
-- src/scryntic/jobs/store.py: `DurableJobStore`. The table is a list of rows in the order of their
-- ids. A statement `WHERE request_id=?` works on the one row with the primary key. What the outside
-- does in a call is its `World`: the clock's value, the text of `uuid4`, whether SQLite begins and
-- commits, and how the audit after the commit ends. The files, the lock and the owning thread are
-- left out.
pub mod Change
pub mod Steps
pub mod Attempts
pub mod Lives
pub mod Sessions
pub mod Fate
pub mod Fence
use scryntic.Prelude.{
  ℕ, zero, suc, ◌+◌, ◌^◌, String, Bool, true, false, not, ◌&&◌, ◌||◌, Option, none, some, List, [],
  ◌∷◌, ltb, leb, ◌==◌, length, if◌then◌else◌, Result, ok, err, Error, refuse, require, value_error,
  job_error, sqlite_error, ◌>>=◌, ◌>>◌,
}
use scryntic.Prelude.Int.{ℤ, pos, negsuc}
use scryntic.Prelude.Text.{str_eq, codes}
use scryntic.Jobs.Records.{
  Row, DurableRecord, Kind, JobState, queued, running, interrupted, succeeded, failed, cancelled,
  deadline_expired, is_terminal, is_running, is_interrupted, is_queued, is_succeeded, is_some,
  same_bool, max_attempts, checked_row, read_row,
}

-- How `_audit_states` ends: it returns, raises a ValueError of the research ledger, or an error of
-- SQLite.
pub data Audit : Type 0 where
  audited : Audit
  audit_refused : Error → Audit
  audit_broken : Audit

pub record World : Type 0 where
  pub clock : ℤ
  pub token : String
  pub begins : Bool
  pub commits : Bool
  pub audit : Audit

pub record Store : Type 0 where
  pub rows : List Row
  pub max_jobs : ℕ
  pub failed : Bool
  pub closed : Bool

-- the statements of one transaction: the result and the rows, or the exception that rolls back
abbrev pub Body : Type 0 → Type 0
Body A = List Row → Result (A × List Row)

unfoldable pub is_sqlite_error : Error → Bool
is_sqlite_error sqlite_error = true
is_sqlite_error e = false

-- what follows the COMMIT
audited_as : {A : Type 0} → Audit → A → Store → Result A × Store
audited_as audited a s = (ok a, s)
audited_as (audit_refused e) a s = (err e, s)
audited_as audit_broken a s = (err sqlite_error, record s { failed = true })

-- what follows the statements, in the `try` block and after an exception
unfoldable pub closing : {A : Type 0} → World → Store → Result (A × List Row) → Result A × Store
unfolding audited_as
closing w s (err e) = (err e, if is_sqlite_error e then record s { failed = true } else s)
closing w s (ok (a, rows)) =
    if w.commits
    then audited_as w.audit a (record s { rows = rows })
    else (err sqlite_error, record s { failed = true })

-- `with self._transaction()`
unfoldable pub transaction : {A : Type 0} → World → Body A → Store → Result A × Store
transaction w body s =
    if s.closed || s.failed
    then (err (job_error "Provider job store unavailable"), s)
    else if not w.begins
    then (err sqlite_error, record s { failed = true })
    else closing w s (body s.rows)

-- `now`
unfoldable pub now_of : World → Result ℕ
now_of w = elim w.clock [
  | negsuc n ↦ err (value_error "Integer below allowed minimum")
  | pos n ↦ if leb (2 ^ 63) n then err (job_error "Job clock outside bounds") else ok n
]

unfoldable pub lookup : String → List Row → Option Row
lookup id [] = none
lookup id (r ∷ rows) = if str_eq r.request_id id then some r else lookup id rows

unfoldable pub replace : String → Row → List Row → List Row
replace id new [] = []
replace id new (r ∷ rows) = if str_eq r.request_id id then new ∷ rows else r ∷ replace id new rows

-- the order of SQLite's BINARY collation
unfoldable pub before : List ℕ → List ℕ → Bool
before [] bs = true
before (a ∷ as') [] = false
before (a ∷ as') (b ∷ bs) = ltb a b || (a == b && before as' bs)

-- an INSERT, in the order of the ids
unfoldable pub insert_row : Row → List Row → List Row
insert_row new [] = new ∷ []
insert_row new (r ∷ rows) =
    if before (codes new.request_id) (codes r.request_id)
    then new ∷ r ∷ rows
    else r ∷ insert_row new rows

unknown_job : Error
unknown_job = job_error "Unknown provider job"

-- a job's statements, where a SELECT by its id has found its row
unfoldable pub on_row :
    {A : Type 0} → String → (Row → Result (A × Row)) → Option Row → List Row → Result (A × List Row)
unfolding unknown_job
on_row id body none rows = err unknown_job
on_row id body (some r) rows = do done ← body r; ok (done.0, replace id done.1 rows)

abbrev pub on_job : {A : Type 0} → String → (Row → Result (A × Row)) → Body A
on_job id body rows = on_row id body (lookup id rows) rows

-- a loop over the rows of a SELECT
unfoldable pub each : {A : Type 0} → (Row → Result (A × Row)) → Body (List A)
each body [] = ok ([], [])
each body (r ∷ rows) = do
  first ← body r
  rest ← each body rows
  ok (first.0 ∷ rest.0, first.1 ∷ rest.1)

-- the loop over `LIMIT limit OFFSET offset`
unfoldable pub page : {A : Type 0} → ℕ → ℕ → (Row → Result (A × Row)) → Body (List A)
page limit offset body [] = ok ([], [])
page zero zero body (r ∷ rows) = ok ([], r ∷ rows)
page (suc limit) zero body (r ∷ rows) = do
  first ← body r
  rest ← page limit zero body rows
  ok (first.0 ∷ rest.0, first.1 ∷ rest.1)
page limit (suc offset) body (r ∷ rows) = do
  rest ← page limit offset body rows
  ok (rest.0, r ∷ rest.1)

unfoldable pub max_ns : ℕ → ℕ → ℕ
max_ns a b = if ltb a b then b else a

-- the row that `_write` leaves
unfoldable pub with_state : JobState → ℕ → ℕ → String → Row → Row
unfolding max_ns
with_state state now updated reason r = record r {
  state = state;
  reason = some reason;
  updated_ns = max_ns now updated;
}

module _ {Request Artifact : Type 0} (kind : Kind Request Artifact) where
  abbrev pub Found : Type 0
  Found = DurableRecord Request Artifact × Row

  -- `_read` of a row that a statement left
  unfoldable pub reread : Row → Result Found
  reread r = do found ← read_row kind r; ok (found, r)

  unfoldable pub written : Row → Result Found
  written r = do stored ← checked_row r; reread stored

  -- `_expire`, of the record that was read from the row
  unfoldable pub expire : ℕ → Found → Result Found
  expire now (found, r) =
      if is_terminal found.state
      then reread r
      else if ltb now found.updated_ns
      then written (with_state failed now found.updated_ns "clock_regression" r)
      else if leb (kind.deadline_ns found.job) now
      then written (with_state deadline_expired now found.updated_ns "deadline" r)
      else reread r

  unfoldable pub read_expired : ℕ → Row → Result Found
  read_expired now r = do found ← reread r; expire now found

  -- one turn of the loop of `_recover`
  unfoldable pub recover_row : ℕ → Row → Result Found
  recover_row now r = do
    found ← read_expired now r
    if is_running found.0.state
        then written (with_state interrupted now found.0.updated_ns "restarted" found.1)
        else ok found

  unfoldable pub recover : World → Body (List (DurableRecord Request Artifact))
  recover w rows = do now ← now_of w; each (recover_row now) rows

  -- the row of the INSERT of `submit`
  unfoldable pub fresh_row : Request → ℕ → Row
  fresh_row job now = record {
    request_id = kind.job_id job;
    request = kind.encode_job job;
    request_sha256 = kind.sha256 job;
    state = queued;
    attempt = 0;
    token = none;
    result_sha256 = none;
    reason = none;
    updated_ns = now;
  }

  -- `submit`, where the id is known
  unfoldable pub resubmit : World → Request → Row → Result Found
  resubmit w job r = do
    found ← reread r
    require (kind.same_job found.0.job job) (job_error "Job identity conflict")
    now ← now_of w
    expire now found

  -- `submit`, where the id is new
  unfoldable pub admit : World → ℕ → Request → Body (DurableRecord Request Artifact)
  admit w max_jobs job rows = do
    now ← now_of w
    refuse (ltb now (kind.submitted_ns job) || leb (kind.deadline_ns job) now)
        (job_error "Job admission deadline/clock rejected")
    refuse (leb max_jobs (length rows)) (job_error "Provider job quota reached")
    inserted ← written (fresh_row job now)
    ok (inserted.0, insert_row inserted.1 rows)

  unfoldable pub submit_to :
      World → ℕ → Request → Option Row → Body (DurableRecord Request Artifact)
  submit_to w max_jobs job none rows = admit w max_jobs job rows
  submit_to w max_jobs job (some r) rows = on_row (kind.job_id job) (resubmit w job) (some r) rows

  unfoldable pub submit : World → Request → Store → Result (DurableRecord Request Artifact) × Store
  submit w job s =
      transaction w (λ rows. submit_to w s.max_jobs job (lookup (kind.job_id job) rows) rows) s

  unfoldable pub get_row : World → Row → Result Found
  get_row w r = do found ← reread r; now ← now_of w; expire now found

  unfoldable pub get : World → String → Store → Result (DurableRecord Request Artifact) × Store
  get w id s = transaction w (on_job id (get_row w)) s
