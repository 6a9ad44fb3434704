-- ===== src/Recovery/Supervisor/Lease.antt =====
-- src/scryntic/recovery/supervisor.py: the `finally` blocks that release the reservations.
use scryntic.Prelude.{
  ℕ, ◌+◌, ◌-◌, ◌≡◌, ◌∙◌, String, true, false, Option, none, some, List, arith, ltb, Result, ok, err,
  refl, sym, ap, subst, Bool-cases, inl, inr,
}
use scryntic.Recovery.Budget.{SharedBudget, Reservation, Lane, try_acquire, release, admit_request}
use scryntic.Recovery.Coverage.Ledger.{Codec}
use scryntic.Recovery.Supervisor.{
  Setup, Supervisor, SupervisorAction, on_ledger, given_back, reserved,
}
use scryntic.Recovery.Supervisor.Rules.{Keeps, Rules}
use scryntic.Recovery.Supervisor.Rounds.{run_tasks-Keeps}
use scryntic.Recovery.Supervisor.Repair.{Task, run_tasks}

-- The budget is as it was, but for the time of the next request.
abbrev pub Restores : SharedBudget → SharedBudget → Type 0
Restores b b' = b' ≡ record b { next_request = b'.next_request }

Restores-trans : (a b c : SharedBudget) → Restores a b → Restores b c → Restores a c
Restores-trans a b c h k =
    k ∙ ap (λ (x : SharedBudget). record x { next_request = c.next_request }) h

abbrev Returned : Supervisor → Supervisor → Type 0
Returned s s' = Restores s.budget s'.budget

release-fresh :
    (b : SharedBudget) (r : Reservation)
    → r.released ≡ false
    → release b r
      ≡ ok (
        record b { records = b.records - r.records; bytes = b.bytes - r.bytes },
        record r { released = true },
      )
unfolding release
release-fresh b r fresh = rw fresh refl

less_again :
    (b c : SharedBudget) (r : Reservation)
    → Restores (record b { records = b.records + r.records; bytes = b.bytes + r.bytes }) c
    → Restores b (record c { records = c.records - r.records; bytes = c.bytes - r.bytes })
less_again b c r h = ground arith

granted_as :
    (b b' : SharedBudget) (kind : Lane) (records bytes : ℕ) (r : Reservation)
    → try_acquire b kind records bytes ≡ ok (b', some r)
    → (r.released ≡ false)
      × (b' ≡ record b { records = b.records + r.records; bytes = b.bytes + r.bytes })
unfolding try_acquire
granted_as b b' kind records bytes r h = ground arith

refused_as :
    (b b' : SharedBudget) (kind : Lane) (records bytes : ℕ)
    → try_acquire b kind records bytes ≡ ok (b', none)
    → b' ≡ b
unfolding try_acquire
refused_as b b' kind records bytes h = ground arith

module _ {A : Type 0} where
  given_back-Restores :
      (b : SharedBudget) (r : Reservation) (out : Result A × Supervisor)
      → r.released ≡ false
      → Restores
          (record b { records = b.records + r.records; bytes = b.bytes + r.bytes })
          out.1.budget
      → Restores b (given_back r out).1.budget
  unfolding given_back
  given_back-Restores b r (out, s) fresh h =
      rw (release-fresh s.budget r fresh, given_back) (less_again b s.budget r h)

  reserved-Restores :
      (kind : Lane) (records bytes : ℕ) (without within : SupervisorAction A) (s : Supervisor)
      (got : Result (SharedBudget × Option Reservation))
      → try_acquire s.budget kind records bytes ≡ got
      → Keeps Returned without
      → Keeps Returned within
      → Restores s.budget (reserved got without within s).1.budget
  unfolding reserved
  reserved-Restores kind records bytes without within s (err e) h k l = refl
  reserved-Restores kind records bytes without within s (ok (b, none)) h k l =
      subst (λ x. Restores x (without (record s { budget = b })).1.budget)
        (refused_as s.budget b kind records bytes h) (k (record s { budget = b }))
  reserved-Restores kind records bytes without within s (ok (b, some r)) h k l =
      let (fresh, more) = granted_as s.budget b kind records bytes r h in
      given_back-Restores s.budget r (within (record s { budget = b })) fresh (
        subst (λ x. Restores x (within (record s { budget = b })).1.budget) more
          (l (record s { budget = b })))

admit_request-Restores : (b : SharedBudget) (now : ℕ) → Restores b (admit_request b now).0
unfolding admit_request
admit_request-Restores b now = elim (Bool-cases (ltb now b.next_request)) [
  | inl early ↦ rw early refl
  | inr late ↦ rw late refl
]

Returned-Rules : Rules Returned
unfolding on_ledger
Returned-Rules = record {
  chain = λ a b c h k. Restores-trans a.budget b.budget c.budget h k;
  fields = λ s s' l b. subst (Restores s.budget) (sym b) refl;
  pay = λ s now. admit_request-Restores s.budget now;
  tell = λ m k s. refl;
  lease = λ kind records bytes without within k l s.
      reserved-Restores kind records bytes without within s _ refl k l;
}

-- Whatever the live calls and the repair rounds, with other live calls during their waits, and
-- whether they return or raise: what they reserved of the shared budget is given back, so that only
-- the time of its next request has changed.
pub run_tasks-Restores :
    (codec : Codec) (sha256 : List ℕ → String) (setup : Setup) (tasks : List Task) (s : Supervisor)
    → Restores s.budget (run_tasks codec sha256 setup tasks s).budget
run_tasks-Restores codec sha256 setup tasks s =
    run_tasks-Keeps Returned Returned-Rules codec sha256 setup tasks s
