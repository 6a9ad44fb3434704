-- ===== src/Jobs/Store/Steps.antt =====
-- src/scryntic/jobs/store.py: the life of one job as a step relation, and what each statement on a
-- row is in it.
use scryntic.Prelude.{
  ok_same, ℕ, ◌≤◌, ◌<◌, ◌≡◌, ◌∙◌, String, Bool, true, false, Option, some, arith, ok, refl, ◌⊎◌,
  inl, inr, Bool-cases, ap, sym, subst, leb, ltb, >>=-returns, >>-returns, require, job_error,
}
use scryntic.Jobs.Records.{
  Row, Kind, JobState, queued, running, interrupted, failed, cancelled, deadline_expired,
  is_terminal, is_running, is_succeeded, is_some, same_bool, max_attempts, checked_row, read_row,
}
use scryntic.Jobs.Store.{
  with_state, max_ns, Found, reread, written, expire, read_expired, recover_row, resubmit, get_row,
  now_of, World,
}
use scryntic.Jobs.Store.Change.{is_claimable, started_row, finished_row, cancel_row}

-- One step of a job, from a row of the table to the row that takes its place.
pub data Move (r r' : Row) : Type 0 where
  -- it fails, is cancelled or expires, from any state that is not terminal
  give_up :
      (state : JobState) (reason : String) (updated : ℕ)
      → is_terminal r.state ≡ false
      → is_terminal state ≡ true
      → is_succeeded state ≡ false
      → r.updated_ns ≤ updated
      → r' ≡ record r { state = state; reason = some reason; updated_ns = updated }
      → Move r r'
  -- a restart interrupts it
  break_off :
      (reason : String) (updated : ℕ)
      → r.state ≡ running
      → r.updated_ns ≤ updated
      → r' ≡ record r { state = interrupted; reason = some reason; updated_ns = updated }
      → Move r r'
  -- an attempt starts, with a new token
  start :
      (token : String) (now : ℕ)
      → (r.state ≡ queued) ⊎ (r.state ≡ interrupted)
      → r.attempt < max_attempts
      → r.updated_ns ≤ now
      → r' ≡ started_row token now r
      → Move r r'
  -- the attempt that is running ends, or is interrupted; it has a result if it has succeeded
  complete :
      (state : JobState) (result reason : Option String) (updated : ℕ)
      → r.state ≡ running
      → (is_terminal state ≡ true) ⊎ (state ≡ interrupted)
      → same_bool (is_succeeded state) (is_some result) ≡ true
      → r.updated_ns ≤ updated
      → r' ≡ finished_row state result reason updated r
      → Move r r'

pub data Moves (r : Row) : Row → Type 0 where
  here : Moves r r
  next : {s t : Row} → Moves r s → Move s t → Moves r t

pub Moves-trans : {r s t : Row} → Moves r s → Moves s t → Moves r t
Moves-trans a here = a
Moves-trans a (next b m) = next (Moves-trans a b) m

pub Moves-step : {r s : Row} → Move r s → Moves r s
Moves-step m = next here m

pub state_of_running : (s : JobState) → is_running s ≡ true → s ≡ running
state_of_running running h = refl
state_of_running _ h = cc

pub state_of_claimable :
    (resume : Bool) (s : JobState)
    → is_claimable resume s ≡ true
    → ((s ≡ queued) ⊎ (s ≡ interrupted)) × (is_terminal s ≡ false)
state_of_claimable true interrupted h = (inr refl, refl)
state_of_claimable false queued h = (inl refl, refl)
state_of_claimable true _ h = cc
state_of_claimable false _ h = cc

module _ {Request Artifact : Type 0} (kind : Kind Request Artifact) where
  -- the record that was read from the row
  abbrev pub Reads : Found kind → Row → Type 0
  Reads (found, stored) r =
      (stored ≡ r)
      × (found.state ≡ r.state)
      × (found.attempt ≡ r.attempt)
      × (found.token ≡ r.token)
      × (found.updated_ns ≡ r.updated_ns)

  pub reread-Reads : (r : Row) (found : Found kind) → reread kind r ≡ ok found → Reads found r
  unfolding reread read_row
  reread-Reads r found h = ground arith

  pub written-Reads : (r : Row) (found : Found kind) → written kind r ≡ ok found → Reads found r
  unfolding written reread read_row checked_row
  written-Reads r found h = ground arith

  -- The row that is left has been reached by steps, and the record is what it says.
  abbrev pub Ends : Row → Found kind → Type 0
  Ends r out = Moves r out.1 × Reads out out.1

  reread-Ends : (r : Row) (out : Found kind) → reread kind r ≡ ok out → Ends r out
  reread-Ends r out h =
      let (same, a, b, c, d) = reread-Reads r out h in
      (
        subst (Moves r) (sym same) here,
        (
          refl,
          a ∙ ap (λ x. x.state) (sym same),
          b ∙ ap (λ x. x.attempt) (sym same),
          c ∙ ap (λ x. x.token) (sym same),
          d ∙ ap (λ x. x.updated_ns) (sym same),
        ),
      )

  pub written-Ends :
      (r s : Row) (out : Found kind) → Moves r s → written kind s ≡ ok out → Ends r out
  written-Ends r s out m h =
      let (same, a, b, c, d) = written-Reads s out h in
      (
        subst (Moves r) (sym same) m,
        (
          refl,
          a ∙ ap (λ x. x.state) (sym same),
          b ∙ ap (λ x. x.attempt) (sym same),
          c ∙ ap (λ x. x.token) (sym same),
          d ∙ ap (λ x. x.updated_ns) (sym same),
        ),
      )

  Ends-trans : (r : Row) (mid out : Found kind) → Ends r mid → Ends mid.1 out → Ends r out
  Ends-trans r mid out a b = (Moves-trans a.0 b.0, b.1)

  pub give_up-Move :
      (state : JobState) (now : ℕ) (reason : String) (found : Found kind)
      → Reads found found.1
      → is_terminal found.0.state ≡ false
      → is_terminal state ≡ true
      → is_succeeded state ≡ false
      → Move found.1 (with_state state now found.0.updated_ns reason found.1)
  unfolding with_state
  give_up-Move state now reason found k live ends lost =
      give_up state reason (max_ns now found.0.updated_ns) (ap is_terminal (sym k.1) ∙ live) ends
        lost (unfold max_ns in ground (arith, k.4)) refl

  expire-Ends :
      (now : ℕ) (found out : Found kind)
      → Reads found found.1
      → expire kind now found ≡ ok out
      → Ends found.1 out
  unfolding expire
  expire-Ends now found out k h = elim (Bool-cases (is_terminal found.0.state)) [
    | inl over ↦ reread-Ends found.1 out (rw over at h)
    | inr live ↦ elim (Bool-cases (ltb now found.0.updated_ns)) [
      | inl back ↦
          written-Ends found.1 _ out
            (Moves-step (give_up-Move failed now "clock_regression" found k live refl refl))
            (rw back at rw live at h)
      | inr on ↦ elim (Bool-cases (leb (kind.deadline_ns found.0.job) now)) [
        | inl late ↦
            written-Ends found.1 _ out
              (Moves-step (give_up-Move deadline_expired now "deadline" found k live refl refl))
              (rw late at rw on at rw live at h)
        | inr early ↦ reread-Ends found.1 out (rw early at rw on at rw live at h)
      ]
    ]
  ]

  pub read_expired-Ends :
      (now : ℕ) (r : Row) (out : Found kind) → read_expired kind now r ≡ ok out → Ends r out
  unfolding read_expired
  read_expired-Ends now r out h =
      let (found, expired, read) = >>=-returns (reread kind r) h in
      let first = reread-Ends r found read in
      Ends-trans r found out first (expire-Ends now found out first.1 expired)

  pub recover_row-Ends :
      (now : ℕ) (r : Row) (out : Found kind) → recover_row kind now r ≡ ok out → Ends r out
  unfolding recover_row with_state
  recover_row-Ends now r out h =
      let (found, rest, read) = >>=-returns (read_expired kind now r) h in
      let first = read_expired-Ends now r found read in
      elim (Bool-cases (is_running found.0.state)) [
        | inl active ↦
            written-Ends r _ out
              (next first.0 (
                break_off "restarted" (max_ns now found.0.updated_ns)
                  (sym first.1.1 ∙ state_of_running found.0.state active)
                  (unfold max_ns in ground (arith, first.1.4)) refl))
              (rw active at rest)
        | inr idle ↦
            (let same : found ≡ out = ok_same found out (rw idle at rest) in
              subst (Ends r) same first)
      ]

  -- an expiry that leaves a job that is not terminal has left its row, at a time not before it
  expire-timely :
      (now : ℕ) (found out : Found kind)
      → Reads found found.1
      → expire kind now found ≡ ok out
      → is_terminal out.0.state ≡ false
      → (out.1.updated_ns ≤ now) × (out.1 ≡ found.1)
  unfolding expire with_state
  expire-timely now found out k h live = elim (Bool-cases (is_terminal found.0.state)) [
    | inl over ↦
        (let (same, a, b, c, d) = reread-Reads found.1 out (rw over at h) in absurd (ground arith))
    | inr fresh ↦ elim (Bool-cases (ltb now found.0.updated_ns)) [
      | inl back ↦
          (let (same, a, b, c, d) = written-Reads _ out (rw back at rw fresh at h) in
            absurd (ground arith))
      | inr on ↦ elim (Bool-cases (leb (kind.deadline_ns found.0.job) now)) [
        | inl late ↦
            (let (same, a, b, c, d) = written-Reads _ out (rw late at rw on at rw fresh at h) in
              absurd (ground arith))
        | inr early ↦
            (let (same, a, b, c, d) =
                reread-Reads found.1 out (rw early at rw on at rw fresh at h) in
              (ground arith, same))
      ]
    ]
  ]

  pub read_expired-timely :
      (now : ℕ) (r : Row) (out : Found kind)
      → read_expired kind now r ≡ ok out
      → is_terminal out.0.state ≡ false
      → (out.1.updated_ns ≤ now) × (out.1 ≡ r)
  unfolding read_expired
  read_expired-timely now r out h live =
      let (found, expired, read) = >>=-returns (reread kind r) h in
      let (timely, same) = expire-timely now found out (reread-Ends r found read).1 expired live in
      (timely, same ∙ (reread-Reads r found read).0)

  pub resubmit-Ends :
      (w : World) (job : Request) (r : Row) (out : Found kind)
      → resubmit kind w job r ≡ ok out
      → Ends r out
  unfolding resubmit
  resubmit-Ends w job r out h =
      let (found, rest, read) = >>=-returns (reread kind r) h in
      let (rest2, same) =
        >>-returns (require (kind.same_job found.0.job job) (job_error "Job identity conflict"))
          rest in
      let (now, rest3, told) = >>=-returns (now_of w) rest2 in
      let first = reread-Ends r found read in
      Ends-trans r found out first (expire-Ends now found out first.1 rest3)

  pub get_row-Ends :
      (w : World) (r : Row) (out : Found kind) → get_row kind w r ≡ ok out → Ends r out
  unfolding get_row
  get_row-Ends w r out h =
      let (found, rest, read) = >>=-returns (reread kind r) h in
      let (now, rest3, told) = >>=-returns (now_of w) rest in
      let first = reread-Ends r found read in
      Ends-trans r found out first (expire-Ends now found out first.1 rest3)

  pub cancel_row-Ends :
      (now : ℕ) (r : Row) (out : Found kind) → cancel_row kind now r ≡ ok out → Ends r out
  unfolding cancel_row
  cancel_row-Ends now r out h =
      let (found, rest, read) = >>=-returns (read_expired kind now r) h in
      let first = read_expired-Ends now r found read in
      elim (Bool-cases (is_terminal found.0.state)) [
        | inl over ↦ Ends-trans r found out first (reread-Ends found.1 out (rw over at rest))
        | inr live ↦
            written-Ends r _ out
              (next first.0 (give_up-Move cancelled now "cancelled" found first.1 live refl refl))
              (rw live at rest)
      ]
