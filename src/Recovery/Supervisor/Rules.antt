-- ===== src/Recovery/Supervisor/Rules.antt =====
-- src/scryntic/recovery/supervisor.py: what all calls keep of the ledger and the budget, from
-- what a call of the ledger, a reservation and the gate keep.
use scryntic.Prelude.{ℕ, ◌≡◌, Bool, true, false, if◌then◌else◌, Result, ok, err, refl}
use scryntic.Prelude.Action.{◌>>=◌, after}
use scryntic.Recovery.Budget.{Lane, try_acquire, admit_request}
use scryntic.Recovery.Coverage.Ledger.{Ledger, LedgerAction}
use scryntic.Recovery.Coverage.Ledger.Extends.{Extends}
use scryntic.Recovery.Supervisor.{Supervisor, SupervisorAction, on_ledger, reserved, waited}
use scryntic.Recovery.Supervisor.Repair.{paced}

abbrev pub Keeps : (Supervisor → Supervisor → Type 0) → {A : Type 0} → SupervisorAction A → Type 0
Keeps R m = (s : Supervisor) → R s (m s).1

-- From one state of a supervisor to a later one: what each call needs of such a relation.
pub record Rules (R : Supervisor → Supervisor → Type 0) : Type 1 where
  pub chain : (a b c : Supervisor) → R a b → R b c → R a c
  pub fields : (s s' : Supervisor) → s'.ledger ≡ s.ledger → s'.budget ≡ s.budget → R s s'
  pub pay : (s : Supervisor) (now : ℕ) → R s (record s { budget = (admit_request s.budget now).0 })
  pub tell :
      {A : Type 0} (m : LedgerAction A)
      → ((l : Ledger) → Extends l (m l).1)
      → (s : Supervisor) → R s (on_ledger m s).1
  pub lease :
      {A : Type 0} (kind : Lane) (records bytes : ℕ) (without within : SupervisorAction A)
      → Keeps R without
      → Keeps R within
      → (s : Supervisor)
      → R s (reserved (try_acquire s.budget kind records bytes) without within s).1

module _ (R : Supervisor → Supervisor → Type 0) (rules : Rules R) where
  pub same : (s : Supervisor) → R s s
  same s = rules.fields s s refl refl

  pub after-Keeps :
      {A B : Type 0} (s : Supervisor) (x : Result A × Supervisor) (f : A → SupervisorAction B)
      → R s x.1
      → ((a : A) → Keeps R (f a))
      → R s (after x f).1
  unfolding after
  after-Keeps s (ok a, t) f h k = rules.chain s t (f a t).1 h (k a t)
  after-Keeps s (err e, t) f h k = h

  pub >>=-Keeps :
      {A B : Type 0} (m : SupervisorAction A) (f : A → SupervisorAction B)
      → Keeps R m
      → ((a : A) → Keeps R (f a))
      → Keeps R (m >>= f)
  >>=-Keeps m f h k s = after-Keeps s (m s) f (h s) k

  pub waited-Keeps :
      {A : Type 0} (wait : Supervisor → Supervisor) (m : SupervisorAction A)
      → ((s : Supervisor) → R s (wait s))
      → Keeps R m
      → Keeps R (waited wait m)
  unfolding waited
  waited-Keeps wait m h k s = rules.chain s (wait s) (m (wait s)).1 (h s) (k (wait s))

  pub if-Keeps :
      {A : Type 0} (s : Supervisor) (test : Bool) (x y : Result A × Supervisor)
      → R s x.1
      → R s y.1
      → R s (if test then x else y).1
  if-Keeps s true x y h k = h
  if-Keeps s false x y h k = k

  pub paced-Keeps :
      (now : ℕ) (within : SupervisorAction Bool) → Keeps R within → Keeps R (paced now within)
  unfolding paced
  paced-Keeps now within k s =
      let s1 = record s { budget = (admit_request s.budget now).0 } in
      if-Keeps s (admit_request s.budget now).1 (within s1) (ok false, s1)
        (rules.chain s s1 (within s1).1 (rules.pay s now) (k s1)) (rules.pay s now)
