-- ===== src/Jobs/Store/Fate.antt =====
-- src/scryntic/jobs/store.py: what the life of a job rules out.
use scryntic.Prelude.{◌≤◌, ◌≡◌, ◌∙◌, String, true, Option, some, List, arith, refl, ap, subst}
use scryntic.Jobs.Records.{Row, Kind, is_terminal, max_attempts}
use scryntic.Jobs.Store.{World, Store, lookup}
use scryntic.Jobs.Store.Change.{Call, run_calls, started_row, finished_row}
use scryntic.Jobs.Store.Steps.{Move, give_up, break_off, start, complete}
use scryntic.Jobs.Store.Lives.{submitted, moved, Life, start_of, then_step}
use scryntic.Jobs.Store.Sessions.{run_calls-Lives}

Move-terminal : {r s : Row} → Move r s → is_terminal r.state ≡ true → ⊥
Move-terminal (give_up state reason updated live a b c e) h = cc
Move-terminal (break_off reason updated live d e) h = ground arith
Move-terminal (start token now live b d e) h = ground arith
Move-terminal (complete state result reason updated live ends b d e) h = ground arith

Life-terminal :
    {o p : Option Row} (r : Row) → Life o p → o ≡ some r → is_terminal r.state ≡ true → p ≡ some r
Life-terminal r start_of e h = e
Life-terminal r (then_step l (submitted f)) e h = absurd (ground (arith, Life-terminal r l e h))
Life-terminal r (then_step l (moved {r = q} m)) e h =
    let same : some q ≡ some r = Life-terminal r l e h in
    let at : q ≡ r = cc in absurd (Move-terminal m (ap (λ x. is_terminal x.state) at ∙ h))

-- A job that has succeeded, failed, been cancelled or expired stays as it is, to its last field,
-- whatever the calls and restarts.
pub terminal_stays :
    {Request Artifact : Type 0} (kind : Kind Request Artifact) (cs : List (World × Call kind))
    (s : Store) (id : String) (r : Row)
    → lookup id s.rows ≡ some r
    → is_terminal r.state ≡ true
    → lookup id (run_calls kind cs s).rows ≡ some r
terminal_stays kind cs s id r h t = Life-terminal r (run_calls-Lives kind cs s id) h t

-- What a later row keeps of an earlier one.
pub record Continues (r s : Row) : Type 0 where
  pub same_request : s.request ≡ r.request
  pub same_hash : s.request_sha256 ≡ r.request_sha256
  pub attempts_grow : r.attempt ≤ s.attempt
  pub attempts_bounded : r.attempt ≤ max_attempts → s.attempt ≤ max_attempts
  pub time_grows : r.updated_ns ≤ s.updated_ns

Move-Continues : {r s : Row} → Move r s → Continues r s
unfolding started_row finished_row
Move-Continues (give_up state reason updated live a b c e) = ground arith
Move-Continues (break_off reason updated live d e) = ground arith
Move-Continues (start token now live b d e) = ground arith
Move-Continues (complete state result reason updated live ends b d e) = ground arith

Continues-trans : {r s t : Row} → Continues r s → Continues s t → Continues r t
Continues-trans a b = record {
  same_request = b.same_request ∙ a.same_request;
  same_hash = b.same_hash ∙ a.same_hash;
  attempts_grow = omega (arith, a.attempts_grow, b.attempts_grow);
  attempts_bounded = λ h. b.attempts_bounded (a.attempts_bounded h);
  time_grows = omega (arith, a.time_grows, b.time_grows);
}

Continues-refl : {r : Row} → Continues r r
Continues-refl = record {
  same_request = refl;
  same_hash = refl;
  attempts_grow = omega arith;
  attempts_bounded = λ h. h;
  time_grows = omega arith;
}

Life-Continues :
    {o p : Option Row} (r : Row) → Life o p → o ≡ some r → (s : Row) × (p ≡ some s) × Continues r s
Life-Continues r start_of e = (r, e, Continues-refl)
Life-Continues r (then_step l (submitted f)) e =
    let (s, gone, k) = Life-Continues r l e in absurd (cc)
Life-Continues r (then_step l (moved {r = q} {r' = q'} m)) e =
    let (s, at, k) = Life-Continues r l e in
    let same : q ≡ s = cc in
    (q', refl, Continues-trans k (subst (λ x. Continues x q') same (Move-Continues m)))

-- Whatever the calls and restarts, a job that the table has stays in it with its request and its
-- hash, its attempts and its time never fall, and attempts that are at most three stay at most
-- three.
pub run_calls-Continues :
    {Request Artifact : Type 0} (kind : Kind Request Artifact) (cs : List (World × Call kind))
    (s : Store) (id : String) (r : Row)
    → lookup id s.rows ≡ some r
    → (r' : Row) × (lookup id (run_calls kind cs s).rows ≡ some r') × Continues r r'
run_calls-Continues kind cs s id r h = Life-Continues r (run_calls-Lives kind cs s id) h
