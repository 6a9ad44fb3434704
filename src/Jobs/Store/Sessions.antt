-- ===== src/Jobs/Store/Sessions.antt =====
-- src/scryntic/jobs/store.py: the table after any calls and restarts.
use scryntic.Prelude.{
  Result-cases, ok_same, ℕ, ◌≡◌, String, Bool, false, ◌||◌, Option, none, some, List, [], ◌∷◌,
  Result, ok, err, ◌>>=◌, refl, inl, inr, Bool-cases, sym, subst, >>=-returns, >>-returns, ltb, leb,
  length, refuse, job_error,
}
use scryntic.Jobs.Records.{Row, DurableRecord, Kind, JobState}
use scryntic.Jobs.Store.{
  World, Store, Body, transaction, now_of, lookup, insert_row, on_row, on_job, each, page, written,
  submit, submit_to, admit, fresh_row, resubmit, get, get_row, recover, recover_row, read_expired,
}
use scryntic.Jobs.Store.Change.{
  JobRecord, find, find_in, opened, cancel_row, finish_row, claim, claim_body, claim_row, cancel,
  cancel_body, finish, finish_body, finish_checks, summary, summary_body, list, list_body,
  open_store, Call, call_submit, call_get, call_find, call_claim, call_cancel, call_finish,
  call_summary, call_list, call_close, call_restart, run_call, run_calls,
}
use scryntic.Jobs.Store.Steps.{
  read_expired-Ends, recover_row-Ends, resubmit-Ends, get_row-Ends, cancel_row-Ends, written-Reads,
}
use scryntic.Jobs.Store.Attempts.{claim_row-Moves, finish_row-Moves, finish_checks-ends}
use scryntic.Jobs.Store.Lives.{
  IsFresh, start_of, Life-trans, Evolves, TableEvolves, RowMoves, Evolves-insert_row,
  on_row-Evolves, each-Evolves, page-Evolves, transaction-Evolves,
}

module _ {Request Artifact : Type 0} (kind : Kind Request Artifact) where
  fresh_row-IsFresh : (job : Request) (now : ℕ) → IsFresh (fresh_row kind job now)
  unfolding fresh_row
  fresh_row-IsFresh job now = record {
    is_new = refl;
    unattempted = refl;
    without_token = refl;
    without_result = refl;
  }

  admit-Evolves :
      (w : World) (max_jobs : ℕ) (job : Request) (rows : List Row)
      (out : DurableRecord Request Artifact × List Row)
      → lookup (kind.job_id job) rows ≡ none
      → admit kind w max_jobs job rows ≡ ok out
      → Evolves rows out.1
  unfolding admit
  admit-Evolves w max_jobs job rows out none_there h =
      let (now, h1, told) = >>=-returns (now_of w) h in
      let (h2, in_time) =
        >>-returns
          (refuse (ltb now (kind.submitted_ns job) || leb (kind.deadline_ns job) now)
            (job_error "Job admission deadline/clock rejected"))
          h1 in
      let (h3, room) =
        >>-returns (refuse (leb max_jobs (length rows)) (job_error "Provider job quota reached"))
          h2 in
      let (inserted, made, wrote) = >>=-returns (written kind (fresh_row kind job now)) h3 in
      let same = (written-Reads kind (fresh_row kind job now) inserted wrote).0 in
      let new_none : lookup (fresh_row kind job now).request_id rows ≡ none =
        unfold fresh_row in none_there in
      subst (λ x. Evolves rows x.1) (ok_same _ out made)
        (subst (λ r. Evolves rows (insert_row r rows)) (sym same)
          (Evolves-insert_row (fresh_row kind job now) rows new_none (fresh_row-IsFresh job now)))

  submit_to-Evolves :
      (w : World) (max_jobs : ℕ) (job : Request) (o : Option Row) (rows : List Row)
      (out : DurableRecord Request Artifact × List Row)
      → lookup (kind.job_id job) rows ≡ o
      → submit_to kind w max_jobs job o rows ≡ ok out
      → Evolves rows out.1
  unfolding submit_to
  submit_to-Evolves w max_jobs job none rows out e h = admit-Evolves w max_jobs job rows out e h
  submit_to-Evolves w max_jobs job (some r) rows out e h =
      on_row-Evolves (kind.job_id job) (resubmit kind w job) (some r) rows out
        (λ r' o k. (resubmit-Ends kind w job r' o k).0) e h

  timed-Evolves :
      {A : Type 0} (w : World) (body : ℕ → Body A)
      → ((now : ℕ) → TableEvolves (body now))
      → (rows : List Row) (out : A × List Row) → (now_of w >>= λ now. body now rows) ≡ ok out
      → Evolves rows out.1
  timed-Evolves w body k rows out h =
      let (now, rest, told) = >>=-returns (now_of w) h in k now rows out rest

  submit-Evolves :
      (w : World) (job : Request) (s : Store) → Evolves s.rows (submit kind w job s).1.rows
  unfolding submit
  submit-Evolves w job s = transaction-Evolves w _ s λ rows out h.
      submit_to-Evolves w s.max_jobs job (lookup (kind.job_id job) rows) rows out refl h

  get-Evolves : (w : World) (id : String) (s : Store) → Evolves s.rows (get kind w id s).1.rows
  unfolding get
  get-Evolves w id s = transaction-Evolves w _ s λ rows out h.
      on_row-Evolves id (get_row kind w) (lookup id rows) rows out
        (λ r o k. (get_row-Ends kind w r o k).0) refl h

  find_in-Evolves :
      (w : World) (id : String) (o : Option Row) (rows : List Row)
      (out : Option (JobRecord kind) × List Row)
      → lookup id rows ≡ o
      → find_in kind w id o rows ≡ ok out
      → Evolves rows out.1
  unfolding find_in
  find_in-Evolves w id none rows out e h =
      subst (λ x. Evolves rows x.1) (ok_same (none, rows) out h) (λ j. start_of)
  find_in-Evolves w id (some r) rows out e h =
      let (found, made, did) = >>=-returns (on_row id (get_row kind w) (some r) rows) h in
      subst (λ x. Evolves rows x.1) (ok_same _ out made)
        (on_row-Evolves id (get_row kind w) (some r) rows found
          (λ r' o k. (get_row-Ends kind w r' o k).0) e did)

  find-Evolves : (w : World) (id : String) (s : Store) → Evolves s.rows (find kind w id s).1.rows
  unfolding find
  find-Evolves w id s =
      transaction-Evolves w _ s λ rows out h. find_in-Evolves w id (lookup id rows) rows out refl h

  claim-Evolves :
      (w : World) (id : String) (resume : Bool) (s : Store)
      → Evolves s.rows (claim kind w id resume s).1.rows
  unfolding claim claim_body
  claim-Evolves w id resume s = transaction-Evolves w _ s (
      timed-Evolves w (λ now. on_job id (claim_row kind resume w.token now))
        λ now rows out h.
          on_row-Evolves id (claim_row kind resume w.token now) (lookup id rows) rows out
            (claim_row-Moves kind resume w.token now) refl h)

  cancel-Evolves :
      (w : World) (id : String) (s : Store) → Evolves s.rows (cancel kind w id s).1.rows
  unfolding cancel cancel_body
  cancel-Evolves w id s = transaction-Evolves w _ s (
      timed-Evolves w (λ now. on_job id (cancel_row kind now))
        λ now rows out h.
          on_row-Evolves id (cancel_row kind now) (lookup id rows) rows out
            (λ r o k. (cancel_row-Ends kind now r o k).0) refl h)

  finish-Evolves :
      (w : World) (active : JobRecord kind) (state : JobState) (artifact : Option Artifact)
      (reason : Option String) (s : Store)
      → Evolves s.rows (finish kind w active state artifact reason s).1.rows
  unfolding finish finish_body
  finish-Evolves w active state artifact reason s =
      elim (Result-cases (finish_checks kind active state artifact)) [
        | inr (x, e) ↦ rw (e, finish) (λ j. start_of)
        | inl (u, e) ↦
            rw (e, finish)
              (transaction-Evolves w _ s (
                timed-Evolves w
                  (λ now.
                    on_job (kind.job_id active.job) (finish_row kind active state _ reason now))
                  λ now rows out h.
                    on_row-Evolves (kind.job_id active.job)
                      (finish_row kind active state _ reason now)
                      (lookup (kind.job_id active.job) rows) rows out
                      (λ r o k.
                        finish_row-Moves kind active state _ reason now r o
                          (finish_checks-ends kind active state artifact e) k)
                      refl h))
      ]

  expired-Moves : (now : ℕ) → RowMoves (read_expired kind now)
  expired-Moves now r o k = (read_expired-Ends kind now r o k).0

  summary-Evolves : (w : World) (s : Store) → Evolves s.rows (summary kind w s).1.rows
  unfolding summary summary_body
  summary-Evolves w s = transaction-Evolves w _ s λ rows out h.
      let (now, rest, told) = >>=-returns (now_of w) h in
      let (expired, made, did) = >>=-returns (each (read_expired kind now) rows) rest in
      subst (λ x. Evolves rows x.1) (ok_same _ out made)
        (each-Evolves (read_expired kind now) (expired-Moves now) rows expired did)

  list-Evolves :
      (w : World) (limit offset : ℕ) (s : Store)
      → Evolves s.rows (list kind w limit offset s).1.rows
  unfolding list list_body
  list-Evolves w limit offset s = elim (Bool-cases (ltb limit 1)) [
    | inl few ↦ rw few (λ j. start_of)
    | inr some' ↦ elim (Bool-cases (ltb 100 limit || ltb 1024 offset)) [
      | inl many ↦ rw some' (rw many (λ j. start_of))
      | inr fits ↦ rw some' (
          rw fits (
            transaction-Evolves w _ s (
              timed-Evolves w (λ now. page limit offset (read_expired kind now))
                λ now. page-Evolves (read_expired kind now) limit offset (expired-Moves now))))
    ]
  ]

  recover-Evolves : (w : World) → TableEvolves (recover kind w)
  unfolding recover
  recover-Evolves w =
      timed-Evolves w (λ now. each (recover_row kind now))
        λ now. each-Evolves (recover_row kind now) (λ r o k. (recover_row-Ends kind now r o k).0)

  pub opened-rows :
      (w : World) (x : Result (List (JobRecord kind)) × Store) → (opened kind w x).1.rows ≡ x.1.rows
  unfolding opened
  opened-rows w (ok records, s) = refl
  opened-rows w (err e, s) = refl

  open_store-Evolves :
      (w : World) (max_jobs : ℕ) (rows : List Row)
      → Evolves rows (open_store kind w max_jobs rows).1.rows
  unfolding open_store
  open_store-Evolves w max_jobs rows = elim (Bool-cases (ltb max_jobs 1)) [
    | inl few ↦ rw few (λ j. start_of)
    | inr more ↦ elim (Bool-cases (ltb 1024 max_jobs)) [
      | inl many ↦ rw more (rw many (λ j. start_of))
      | inr fits ↦ elim (Bool-cases (ltb max_jobs (length rows))) [
        | inl full ↦ rw more (rw fits (rw full (λ j. start_of)))
        | inr room ↦
            (let s : Store = record {
              rows = rows;
              max_jobs = max_jobs;
              failed = false;
              closed = false;
            } in
              rw more (
                rw fits (
                  rw room (
                    subst (Evolves rows) (sym (opened-rows w (transaction w (recover kind w) s)))
                      (transaction-Evolves w (recover kind w) s (recover-Evolves w))))))
      ]
    ]
  ]

  run_call-Evolves :
      (w : World) (c : Call kind) (s : Store) → Evolves s.rows (run_call kind w c s).rows
  unfolding run_call
  run_call-Evolves w (call_submit job) s = submit-Evolves w job s
  run_call-Evolves w (call_get id) s = get-Evolves w id s
  run_call-Evolves w (call_find id) s = find-Evolves w id s
  run_call-Evolves w (call_claim id resume) s = claim-Evolves w id resume s
  run_call-Evolves w (call_cancel id) s = cancel-Evolves w id s
  run_call-Evolves w (call_finish active state artifact reason) s =
      finish-Evolves w active state artifact reason s
  run_call-Evolves w call_summary s = summary-Evolves w s
  run_call-Evolves w (call_list limit offset) s = list-Evolves w limit offset s
  run_call-Evolves w call_close s = λ j. start_of
  run_call-Evolves w (call_restart max_jobs) s = open_store-Evolves w max_jobs s.rows

  -- Whatever the calls and restarts, the clock, SQLite's failures and the audit's: what the table
  -- has for each id only goes through the steps of a job's life. It is submitted once as a fresh
  -- row, moves, and is never deleted; a running job is left only for a terminal state or the
  -- interrupted one.
  pub run_calls-Lives :
      (cs : List (World × Call kind)) (s : Store) → Evolves s.rows (run_calls kind cs s).rows
  unfolding run_calls
  run_calls-Lives [] s id = start_of
  run_calls-Lives ((w, c) ∷ cs) s id =
      Life-trans (run_call-Evolves w c s id) (run_calls-Lives cs (run_call kind w c s) id)
