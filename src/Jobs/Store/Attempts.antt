-- ===== src/Jobs/Store/Attempts.antt =====
-- src/scryntic/jobs/store.py: `claim` and `finish` on a row, as steps of a job's life.
use scryntic.Prelude.{
  ok_same, ℕ, ◌≤◌, ◌<◌, ◌≡◌, String, Bool, true, false, Option, none, some, arith, ok, refl, ◌⊎◌,
  inl, inr, Bool-cases, sym, subst, leb, >>=-returns,
}
use scryntic.Jobs.Records.{
  Row, Kind, JobState, queued, running, interrupted, failed, is_terminal, is_succeeded, is_some,
  same_bool, max_attempts, checked_row,
}
use scryntic.Jobs.Store.{with_state, max_ns, Found, written, read_expired}
use scryntic.Jobs.Store.Change.{
  JobRecord, is_claimable, started_row, finished_row, claim_found, claim_row, is_active, finish_row,
  finish_checks, not_a_completion,
}
use scryntic.Jobs.Store.Steps.{
  start, complete, Moves, here, next, Moves-trans, Moves-step, state_of_running, state_of_claimable,
  Reads, written-Ends, give_up-Move, read_expired-Ends, read_expired-timely,
}

completion_state :
    (state : JobState)
    → not_a_completion state ≡ false
    → (is_terminal state ≡ true) ⊎ (state ≡ interrupted)
unfolding not_a_completion
completion_state interrupted h = inr refl
completion_state queued h = absurd (cc)
completion_state running h = absurd (cc)
completion_state _ h = inl refl

module _ {Request Artifact : Type 0} (kind : Kind Request Artifact) where
  claim_found-Moves :
      (resume : Bool) (token : String) (now : ℕ) (found : Found kind)
      (out : Option (JobRecord kind) × Row)
      → Reads kind found found.1
      → (is_terminal found.0.state ≡ false → found.1.updated_ns ≤ now)
      → claim_found kind resume token now found ≡ ok out
      → Moves found.1 out.1
  unfolding claim_found
  claim_found-Moves resume token now found out k timely h =
      elim (Bool-cases (is_claimable resume found.0.state)) [
        | inr other ↦
            (let same : (none, found.1) ≡ out = ok_same _ out (rw other at h) in
              subst (λ o. Moves found.1 o.1) same here)
        | inl ready ↦
            let (from, live) = state_of_claimable resume found.0.state ready in
            elim (Bool-cases (leb max_attempts found.0.attempt)) [
              | inl spent ↦
                  let (failing, rest, wrote) =
                    >>=-returns
                      (written kind
                        (with_state failed now found.0.updated_ns "attempt_quota" found.1))
                      (rw spent at rw ready at h) in
                  let same : (some failing.0, failing.1) ≡ out = ok_same _ out rest in
                  subst (λ o. Moves found.1 o.1) same
                    (written-Ends kind found.1 _ failing
                      (Moves-step
                        (give_up-Move kind failed now "attempt_quota" found k live refl refl))
                      wrote).0
              | inr left ↦
                  let (started, rest, wrote) =
                    >>=-returns (written kind (started_row token now found.1))
                      (rw left at rw ready at h) in
                  let same : (some started.0, started.1) ≡ out = ok_same _ out rest in
                  let few : found.1.attempt < max_attempts = ground (arith, k.2) in
                  subst (λ o. Moves found.1 o.1) same
                    (written-Ends kind found.1 _ started
                      (Moves-step (
                        start token now (subst (λ x. (x ≡ queued) ⊎ (x ≡ interrupted)) k.1 from) few
                          (timely live) refl))
                      wrote).0
            ]
      ]

  pub claim_row-Moves :
      (resume : Bool) (token : String) (now : ℕ) (r : Row) (out : Option (JobRecord kind) × Row)
      → claim_row kind resume token now r ≡ ok out
      → Moves r out.1
  unfolding claim_row
  claim_row-Moves resume token now r out h =
      let (found, rest, read) = >>=-returns (read_expired kind now r) h in
      let first = read_expired-Ends kind now r found read in
      Moves-trans first.0 (
        claim_found-Moves resume token now found out first.1
          (λ live. (read_expired-timely kind now r found read live).0) rest)

  -- A row that `finish` changes was running under the very attempt, and ends as it says.
  pub finish_row-true :
      (active : JobRecord kind) (state : JobState) (result reason : Option String) (now : ℕ)
      (r : Row) (out : Bool × Row)
      → finish_row kind active state result reason now r ≡ ok out
      → (found : Found kind) × (read_expired kind now r ≡ ok found)
        × (((out.0 ≡ false) × (out.1 ≡ found.1))
            ⊎ ((out.0 ≡ true)
                × (is_active kind active found.1 ≡ true)
                × (kind.same_job found.0.job active.job ≡ true)
                × (same_bool (is_succeeded state) (is_some result) ≡ true)
                × (out.1
                    ≡ finished_row state result reason (max_ns now found.0.updated_ns) found.1)))
  unfolding finish_row finished_row
  finish_row-true active state result reason now r out h =
      let (found, rest, read) = >>=-returns (read_expired kind now r) h in
      (
        found,
        read,
        elim (Bool-cases (kind.same_job found.0.job active.job)) [
          | inr other ↦ inl (ground arith)
          | inl same ↦ elim (Bool-cases (is_active kind active found.1)) [
            | inr idle ↦ inl (ground arith)
            | inl hit ↦ inr (unfold checked_row in ground arith)
          ]
        ],
      )

  pub finish_checks-ends :
      (active : JobRecord kind) (state : JobState) (artifact : Option Artifact) {u : Unit {0}}
      → finish_checks kind active state artifact ≡ ok u
      → (is_terminal state ≡ true) ⊎ (state ≡ interrupted)
  unfolding finish_checks
  finish_checks-ends active state artifact h = completion_state state (ground arith)

  pub finish_row-Moves :
      (active : JobRecord kind) (state : JobState) (result reason : Option String) (now : ℕ)
      (r : Row) (out : Bool × Row)
      → (is_terminal state ≡ true) ⊎ (state ≡ interrupted)
      → finish_row kind active state result reason now r ≡ ok out
      → Moves r out.1
  finish_row-Moves active state result reason now r out ends h =
      let (found, read, what) = finish_row-true active state result reason now r out h in
      let first = read_expired-Ends kind now r found read in
      elim what [
        | inl (no_change, same) ↦ subst (Moves r) (sym same) first.0
        | inr (changed, hit, job, shape, same) ↦ next first.0 (
            complete state result reason (max_ns now found.0.updated_ns)
              (state_of_running found.1.state (unfold is_active in ground arith)) ends shape
              (unfold max_ns in ground (arith, first.1.4)) same)
      ]
