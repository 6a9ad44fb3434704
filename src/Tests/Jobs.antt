-- ===== src/Tests/Jobs.antt =====
-- src/scryntic/jobs/store.py at concrete values: two jobs, of which one has run, and a kind of job
-- whose requests are their submission and deadline.
use scryntic.Prelude.{
  ◌≡◌, String, Bool, true, false, Option, some, none, List, [], ◌∷◌, ◌==◌, Result, ok, refl, ◌&&◌,
  ℕ, All, ◌≢◌,
}
use scryntic.Prelude.Int.{pos}
use scryntic.Prelude.Text.{str_eq}
use scryntic.Jobs.Records.{checked_row, read_row, Row, Kind, JobState, running, succeeded}
use scryntic.Jobs.Store.{
  resubmit, replace, page, is_sqlite_error, insert_row, get_row, get, before, fresh_row, admit,
  submit_to, on_row, with_state, written, expire, reread, read_expired, recover_row, each, recover,
  closing, transaction, World, Store, audited, lookup, submit, now_of, max_ns,
}
use scryntic.Jobs.Store.Change.{
  summary_body, summary, started_row, same_token, same_state, opened, list_body, list, find_in,
  find, count_state, claim_row, claim_found, cancel_row, cancel_body, cancel, claim_body, is_active,
  finish_row, finish_body, finish_checks, Call, run_calls, run_call, call_submit, call_claim,
  call_restart, call_cancel, claim, finish, open_store, finished_row, result_of, JobRecord,
}
use scryntic.Jobs.Store.Lives.{Evolves}
use scryntic.Jobs.Store.Sessions.{run_calls-Lives}
use scryntic.Jobs.Store.Fate.{terminal_stays, run_calls-Continues, Continues}
use scryntic.Jobs.Store.Fence.{open_store-idle, finish-fenced, IsAttempt}

record Order : Type 0 where
  id : String
  from : ℕ
  until : ℕ

abbrev same_order : Order → Order → Bool
same_order a b = str_eq a.id b.id && (a.from == b.from && a.until == b.until)

abbrev first_order : Order
first_order = record { id = "a"; from = 100; until = 900 }

abbrev artifact_read : Order → JobState → Option String → Result (Option String)
artifact_read job state result = ok result

abbrev orders : Kind Order String
orders = record {
  job_id = λ o. o.id;
  sha256 = λ o. o.id;
  submitted_ns = λ o. o.from;
  deadline_ns = λ o. o.until;
  same_job = same_order;
  encode_job = λ o. [];
  decode_job = λ b. ok first_order;
  artifact_of = artifact_read;
  artifact_sha256 = λ a. a;
  validate_artifact = λ r a. ok tt;
}

abbrev token : String
token = "0123456789abcdef0123456789abcdef"

abbrev at_time : ℕ → World
at_time n = record { clock = pos n; token = token; begins = true; commits = true; audit = audited }

abbrev empty_store : Store
empty_store = record { rows = []; max_jobs = 4; failed = false; closed = false }

abbrev run_row : Row
run_row = record {
  request_id = "a";
  request = [];
  request_sha256 = "a";
  state = running;
  attempt = 1;
  token = some token;
  result_sha256 = none;
  reason = none;
  updated_ns = 300;
}

abbrev running_store : Store
running_store = record empty_store { rows = run_row ∷ [] }

abbrev active_job : JobRecord orders
active_job = record {
  job = first_order;
  state = running;
  attempt = 1;
  token = some token;
  artifact = none;
  reason = none;
  updated_ns = 300;
}

abbrev done_row : Row
done_row = record run_row { state = succeeded; result_sha256 = some "result"; updated_ns = 400 }

abbrev done_store : Store
done_store = record empty_store { rows = done_row ∷ [] }

submit_claim_test :
    run_calls orders
      ((at_time 200, call_submit first_order) ∷ (at_time 300, call_claim "a" false) ∷ [])
      empty_store
    ≡ running_store
unfolding run_calls run_call claim transaction submit closing submit_to lookup admit now_of written
    checked_row fresh_row reread read_row claim_body on_row cancel cancel_body cancel_row
    claim_found claim_row count_state find find_in finish finish_body finish_checks finish_row
    finished_row is_active list list_body open_store opened result_of same_state same_token
    started_row summary summary_body before each expire get get_row insert_row is_sqlite_error
    max_ns page read_expired recover recover_row replace resubmit with_state
submit_claim_test = refl

finish_test :
    finish orders (at_time 400) active_job succeeded (some "result") none running_store
    ≡ (ok true, done_store)
unfolding finish finish_checks transaction closing finish_body now_of on_row lookup finish_row
    read_expired reread read_row expire is_active checked_row finished_row replace result_of
    same_token is_sqlite_error max_ns with_state written
finish_test = refl

restart_test : run_call orders (at_time 500) (call_restart 4) running_store ≡ record empty_store {
  rows =
      record run_row { state = JobState.interrupted; reason = some "restarted"; updated_ns = 500 }
      ∷ [];
}
unfolding run_call open_store transaction closing recover now_of each recover_row read_expired
    reread read_row expire written checked_row with_state
restart_test = refl

expired_test :
    run_call orders (at_time 900) (call_claim "a" false) running_store ≡ record empty_store {
      rows =
          record run_row {
            state = JobState.deadline_expired;
            reason = some "deadline";
            updated_ns = 900;
          }
          ∷ [];
    }
unfolding run_call claim transaction closing claim_body now_of on_row lookup claim_row read_expired
    reread read_row expire written checked_row with_state claim_found cancel cancel_body cancel_row
    count_state find find_in finish finish_body finish_checks finish_row finished_row is_active list
    list_body open_store opened result_of same_state same_token started_row summary summary_body
    admit before each fresh_row get get_row insert_row is_sqlite_error max_ns page recover
    recover_row replace resubmit submit submit_to
expired_test = refl

abbrev later_calls : List (World × Call orders)
later_calls =
    (at_time 500, call_cancel "a")
    ∷ (at_time 600, call_restart 4)
    ∷ (at_time 700, call_claim "a" true)
    ∷ []

run_calls-Lives_example :
    Evolves running_store.rows (run_calls orders later_calls running_store).rows
run_calls-Lives_example = run_calls-Lives orders later_calls running_store

terminal_stays_example : lookup "a" (run_calls orders later_calls done_store).rows ≡ some done_row
unfolding lookup
terminal_stays_example = terminal_stays orders later_calls done_store "a" done_row refl refl

run_calls-Continues_example :
    (r' : Row) × (lookup "a" (run_calls orders later_calls running_store).rows ≡ some r')
    × Continues run_row r'
unfolding lookup
run_calls-Continues_example = run_calls-Continues orders later_calls running_store "a" run_row refl

open_store-idle_example :
    All (λ r. r.state ≢ running) (open_store orders (at_time 500) 4 (run_row ∷ [])).1.rows
unfolding open_store transaction closing recover now_of each recover_row read_expired reread
    read_row expire written checked_row with_state
open_store-idle_example = open_store-idle orders (at_time 500) 4 (run_row ∷ []) refl

finish-fenced_example :
    (r : Row) × (now : ℕ) × (now_of (at_time 400) ≡ ok now)
    × (lookup "a" running_store.rows ≡ some r)
    × (lookup "a"
          (finish orders
            (at_time 400)
            active_job
            succeeded
            (some "result")
            none
            running_store).1.rows
        ≡ some (finished_row succeeded (some "result") none (max_ns now r.updated_ns) r))
    × IsAttempt orders active_job r
unfolding finish finish_checks transaction closing finish_body now_of on_row lookup finish_row
    read_expired reread read_row expire is_active checked_row finished_row
finish-fenced_example =
    finish-fenced orders (at_time 400) active_job succeeded (some "result") none running_store refl
