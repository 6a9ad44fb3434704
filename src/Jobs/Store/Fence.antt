-- ===== src/Jobs/Store/Fence.antt =====
-- src/scryntic/jobs/store.py: the opening of a store, and the fence of `finish`.
use scryntic.Prelude.{
  Result-cases, ok_same, ℕ, ◌≡◌, ◌≢◌, ◌∙◌, String, true, false, Option, none, some, List, [], ◌∷◌,
  arith, All, Result, ok, err, refl, inl, inr, sym, ap, subst, >>=-returns, Bool-cases, length, ltb,
}
use scryntic.Prelude.Text.{str_eq_iff}
use scryntic.Jobs.Records.{Row, Kind, JobState, running, is_terminal, is_running, interrupted}
use scryntic.Jobs.Store.{
  World, Store, lookup, now_of, each, recover, recover_row, Found, read_expired, transaction,
  with_state, max_ns, on_row, replace,
}
use scryntic.Jobs.Store.Change.{
  JobRecord, finished_row, open_store, opened, result_of, same_token, finish, finish_body,
  finish_checks, finish_row, is_active,
}
use scryntic.Jobs.Store.Steps.{
  read_expired-Ends, read_expired-timely, written-Reads, state_of_running,
}
use scryntic.Jobs.Store.Attempts.{finish_row-true}
use scryntic.Jobs.Store.Lives.{transaction-ok, lookup-replace, lookup-id}
use scryntic.Jobs.Store.Sessions.{opened-rows}

on_row-row :
    {A : Type 0} (id : String) (change : Row → Result (A × Row)) (o : Option Row) (rows : List Row)
    (a : A) (after : List Row)
    → on_row id change o rows ≡ ok (a, after)
    → (r : Row) × (o ≡ some r) × (r' : Row) × (change r ≡ ok (a, r')) × (after ≡ replace id r' rows)
unfolding on_row
on_row-row id change none rows a after h = cc
on_row-row id change (some r) rows a after h =
    let (done, rest, did) = >>=-returns (change r) h in
    let same : (done.0, replace id done.1 rows) ≡ (a, after) = ok_same _ (a, after) rest in
    (
      r,
      refl,
      done.1,
      subst (λ x. change r ≡ ok (x, done.1)) (ap (λ x. x.0) same) did,
      sym (ap (λ x. x.1) same),
    )

module _ {Request Artifact : Type 0} (kind : Kind Request Artifact) where
  recover_row-idle :
      (now : ℕ) (r : Row) (out : Found kind)
      → recover_row kind now r ≡ ok out
      → out.1.state ≢ running
  unfolding recover_row with_state
  recover_row-idle now r out h =
      let (found, rest, read) = >>=-returns (read_expired kind now r) h in
      let first = read_expired-Ends kind now r found read in
      elim (Bool-cases (is_running found.0.state)) [
        | inl active ↦
            (let restarted = with_state interrupted now found.0.updated_ns "restarted" found.1 in
              let (same, a, b, c, d) = written-Reads kind restarted out (rw active at rest) in
              subst (λ x. x.state ≢ running) (sym same) (λ e. ground arith))
        | inr idle ↦
            (let same : found ≡ out = ok_same found out (rw idle at rest) in
              let left = ap (λ x. x.1.state) same in
              let told = first.1.1 in λ e. ground (arith, ap is_running (told ∙ left ∙ e)))
      ]

  each-All :
      {A : Type 0} (P : Row → Type 0) (body : Row → Result (A × Row)) (rows : List Row)
      (out : List A × List Row)
      → ((r : Row) (o : A × Row) → body r ≡ ok o → P o.1)
      → each body rows ≡ ok out
      → All P out.1
  unfolding each
  each-All P body [] out k h = subst (λ x. All P x.1) (ok_same ([], []) out h) tt
  each-All P body (r ∷ rows) out k h =
      let (first, after, did) = >>=-returns (body r) h in
      let (rest, made, others) = >>=-returns (each body rows) after in
      subst (λ x. All P x.1) (ok_same _ out made)
        (k r first did, each-All P body rows rest k others)

  opened-ok :
      (w : World) (x : Result (List (JobRecord kind)) × Store)
      → (opened kind w x).0 ≡ ok tt
      → (records : List (JobRecord kind)) × (x.0 ≡ ok records)
  unfolding opened
  opened-ok w (ok records, s) h = (records, refl)
  opened-ok w (err e, s) h = cc

  recover-idle :
      (w : World) (rows : List Row) (out : List (JobRecord kind) × List Row)
      → recover kind w rows ≡ ok out
      → All (λ r. r.state ≢ running) out.1
  unfolding recover
  recover-idle w rows out h =
      let (now, rest, told) = >>=-returns (now_of w) h in
      each-All (λ r. r.state ≢ running) (recover_row kind now) rows out (recover_row-idle now) rest

  -- After an opening of the store that returns, no job is running.
  pub open_store-idle :
      (w : World) (max_jobs : ℕ) (rows : List Row)
      → (open_store kind w max_jobs rows).0 ≡ ok tt
      → All (λ r. r.state ≢ running) (open_store kind w max_jobs rows).1.rows
  unfolding open_store
  open_store-idle w max_jobs rows h = elim (Bool-cases (ltb max_jobs 1)) [
    | inl few ↦ absurd (ground arith)
    | inr more ↦ elim (Bool-cases (ltb 1024 max_jobs)) [
      | inl many ↦ absurd (ground arith)
      | inr fits ↦ elim (Bool-cases (ltb max_jobs (length rows))) [
        | inl full ↦ absurd (ground arith)
        | inr room ↦
            (let s : Store = record {
              rows = rows;
              max_jobs = max_jobs;
              failed = false;
              closed = false;
            } in
              let call = transaction w (recover kind w) s in
              let (records, returned) = opened-ok w call (rw room at (rw fits at (rw more at h))) in
              let (left, did, at) = transaction-ok w (recover kind w) s records returned in
              rw more (
                rw fits (
                  rw room (
                    subst (All (λ r. r.state ≢ running)) (sym (opened-rows kind w call ∙ at))
                      (recover-idle w rows (records, left) did)))))
      ]
    ]
  ]

  tokens-same : (a b : Option String) → same_token a b ≡ true → a ≡ b
  unfolding same_token
  tokens-same (some a) (some b) h = ap some ((str_eq_iff a b).0 h)
  tokens-same none b h = cc
  tokens-same (some a) none h = cc

  -- the attempt that is running in the row
  pub record IsAttempt (active : JobRecord kind) (r : Row) : Type 0 where
    pub is_run : r.state ≡ running
    pub its_attempt : r.attempt ≡ active.attempt
    pub its_token : r.token ≡ active.token

  is_active-IsAttempt :
      (active : JobRecord kind) (r : Row) → is_active kind active r ≡ true → IsAttempt active r
  unfolding is_active
  is_active-IsAttempt active r h = record {
    is_run = state_of_running r.state (ground arith);
    its_attempt = ground arith;
    its_token = tokens-same r.token active.token (ground arith);
  }

  finish_row-fence :
      (active : JobRecord kind) (state : JobState) (result reason : Option String) (now : ℕ)
      (r r' : Row)
      → finish_row kind active state result reason now r ≡ ok (true, r')
      → IsAttempt active r × (r' ≡ finished_row state result reason (max_ns now r.updated_ns) r)
  finish_row-fence active state result reason now r r' h =
      let (found, read, what) =
        finish_row-true kind active state result reason now r (true, r') h in
      elim what [
        | inl (no_change, same) ↦ absurd (cc)
        | inr (changed, hit, job, shape, same) ↦
            (let (moves, sound) = read_expired-Ends kind now r found read in
              let active_row = is_active-IsAttempt active found.1 hit in
              let live : is_terminal found.0.state ≡ false =
                ap is_terminal (sound.1 ∙ active_row.is_run) in
              let (timely, as_was) = read_expired-timely kind now r found read live in
              (
                subst (IsAttempt active) as_was active_row,
                same
                    ∙ ap (λ (x : ℕ). finished_row state result reason (max_ns now x) found.1)
                        sound.4
                    ∙ ap (λ (x : Row). finished_row state result reason (max_ns now x.updated_ns) x)
                        as_was,
              ))
      ]

  -- A `finish` that returns True has found the job running, at the attempt and the token of the
  -- record it was given, and leaves that row with the given state, reason and result, and as its
  -- time the later of the clock's and its own.
  pub finish-fenced :
      (w : World) (active : JobRecord kind) (state : JobState) (artifact : Option Artifact)
      (reason : Option String) (s : Store)
      → (finish kind w active state artifact reason s).0 ≡ ok true
      → (r : Row) × (now : ℕ) × (now_of w ≡ ok now)
        × (lookup (kind.job_id active.job) s.rows ≡ some r)
        × (lookup (kind.job_id active.job) (finish kind w active state artifact reason s).1.rows
            ≡ some
                (finished_row state (result_of kind artifact) reason (max_ns now r.updated_ns) r))
        × IsAttempt active r
  unfolding finish finish_body finished_row
  finish-fenced w active state artifact reason s h =
      let id = kind.job_id active.job in
      elim (Result-cases (finish_checks kind active state artifact)) [
        | inr (x, e) ↦ absurd (ground arith)
        | inl (u, e) ↦
            (let body = finish_body kind w active state (result_of kind artifact) reason in
              let (rows, did, at) = transaction-ok w body s true (rw (e, finish) at h) in
              let (now, rest, told) = >>=-returns (now_of w) did in
              let change = finish_row kind active state (result_of kind artifact) reason now in
              let (r, found, r', changed, left) =
                on_row-row id change (lookup id s.rows) s.rows true rows rest in
              let (attempt, as_told) =
                finish_row-fence active state (result_of kind artifact) reason now r r' changed in
              let kept =
                lookup-replace id id r' s.rows r found
                  (ap (λ (x : Row). x.request_id) as_told ∙ lookup-id id s.rows r found) in
              let here : lookup id rows ≡ some r' =
                ap (lookup id) left ∙ kept ∙ rw ((str_eq_iff id id).1 refl) refl in
              (
                r,
                now,
                told,
                found,
                rw (e, finish) (ap (lookup id) at ∙ here ∙ ap some as_told),
                attempt,
              ))
      ]
