-- ===== src/Recovery/Budget/Lanes.antt =====
-- src/scryntic/recovery/budget.py, "never lend live headroom to backfill": the counters against the
-- reservations that are outstanding.
use scryntic.Prelude.{
  ℕ, zero, suc, ◌+◌, ◌-◌, ◌≤◌, ◌<◌, ◌≡◌, Bool, true, false, some, List, [], ◌∷◌, arith,
  if◌then◌else◌, ok, err, get_elem?, set, Option-cases, inl, inr, refl, Bool-cases, runtime_error,
}
use scryntic.Recovery.Budget.{
  Lane, live, backfill, Reservation, SharedBudget, Pool, Call, acquire, give_back, new, try_acquire,
  release, call, calls,
}

abbrev counts : Lane → Lane → Bool
counts live live = true
counts backfill backfill = true
counts _ _ = false

-- what a held reservation of the lane still takes
abbrev taken : (Reservation → ℕ) → Lane → Lane × Reservation → ℕ
taken size lane (kind, r) = if counts lane kind then (if r.released then 0 else size r) else 0

unfoldable pub outstanding : (Reservation → ℕ) → Lane → List (Lane × Reservation) → ℕ
outstanding size lane [] = 0
outstanding size lane (x ∷ xs) = taken size lane x + outstanding size lane xs

outstanding-release :
    (size : Reservation → ℕ) (lane kind : Lane) (xs : List (Lane × Reservation)) (i : ℕ)
    (r r' : Reservation)
    → get_elem? xs i ≡ some (kind, r)
    → r'.released ≡ true
    → outstanding size lane (set xs i (kind, r')) + taken size lane (kind, r)
      ≡ outstanding size lane xs
unfolding outstanding
outstanding-release size lane kind [] i r r' h e = cc
outstanding-release size lane kind (x ∷ xs) zero r r' h e = ground arith
outstanding-release size lane kind (x ∷ xs) (suc i) r r' h e =
    omega (arith, outstanding-release size lane kind xs i r r' h e)

-- The counters are what is outstanding, they stay within the capacity, and the backfill lane
-- leaves the reserve free.
pub record IsSound (p : Pool) : Type 0 where
  pub records_exact :
      p.budget.records
      ≡ outstanding (λ r. r.records) live p.held + outstanding (λ r. r.records) backfill p.held
  pub bytes_exact :
      p.budget.bytes
      ≡ outstanding (λ r. r.bytes) live p.held + outstanding (λ r. r.bytes) backfill p.held
  pub records_within : p.budget.records ≤ p.budget.capacity_records
  pub bytes_within : p.budget.bytes ≤ p.budget.capacity_bytes
  pub reserve_within : p.budget.reserve_records < p.budget.capacity_records
  pub reserve_bytes_within : p.budget.reserve_bytes < p.budget.capacity_bytes
  pub backfill_records :
      outstanding (λ r. r.records) backfill p.held + p.budget.reserve_records
      ≤ p.budget.capacity_records
  pub backfill_bytes :
      outstanding (λ r. r.bytes) backfill p.held + p.budget.reserve_bytes ≤ p.budget.capacity_bytes

acquire-IsSound :
    (p : Pool) (kind : Lane) (records bytes : ℕ)
    → IsSound p
    → IsSound (call p (acquire kind records bytes))
unfolding call try_acquire outstanding
acquire-IsSound p live records bytes h = ground arith
acquire-IsSound p backfill records bytes h = ground arith

give_back-IsSound :
    (p : Pool) (i : ℕ) (kind : Lane) (r : Reservation)
    → get_elem? p.held i ≡ some (kind, r)
    → r.released ≡ false
    → IsSound p
    → IsSound (record {
      budget = record p.budget {
        records = p.budget.records - r.records;
        bytes = p.budget.bytes - r.bytes;
      };
      held = set p.held i (kind, record r { released = true });
    })
give_back-IsSound p i kind r at fresh h =
    let r' = record r { released = true } in
    ground (
      arith,
      outstanding-release (λ x. x.records) live kind p.held i r r' at refl,
      outstanding-release (λ x. x.records) backfill kind p.held i r r' at refl,
      outstanding-release (λ x. x.bytes) live kind p.held i r r' at refl,
      outstanding-release (λ x. x.bytes) backfill kind p.held i r r' at refl,
    )

give_back_call-IsSound : (p : Pool) (i : ℕ) → IsSound p → IsSound (call p (give_back i))
unfolding call release
give_back_call-IsSound p i h = elim (Option-cases (get_elem? p.held i)) [
  | inl missing ↦ rw (missing, call) h
  | inr ((kind, r), at) ↦ elim (Bool-cases r.released) [
    | inl old ↦ rw (at, call) (rw old h)
    | inr fresh ↦ rw (at, call) (rw fresh (give_back-IsSound p i kind r at fresh h))
  ]
]

call-IsSound : (p : Pool) (c : Call) → IsSound p → IsSound (call p c)
call-IsSound p (acquire kind records bytes) h = acquire-IsSound p kind records bytes h
call-IsSound p (give_back i) h = give_back_call-IsSound p i h

calls-IsSound : (p : Pool) (cs : List Call) → IsSound p → IsSound (calls p cs)
unfolding calls
calls-IsSound p [] h = h
calls-IsSound p (c ∷ cs) h = calls-IsSound (call p c) cs (call-IsSound p c h)

abbrev pub fresh : SharedBudget → Pool
fresh b = record { budget = b; held = [] }

fresh-IsSound :
    (records bytes live_records live_bytes interval : ℕ) (b : SharedBudget)
    → new records bytes live_records live_bytes interval ≡ ok b
    → IsSound (fresh b)
unfolding new outstanding
fresh-IsSound records bytes live_records live_bytes interval b h = ground arith

-- Whatever the lanes acquire and give back, in any order and with any errors, the counters of a
-- budget that was constructed are what is outstanding, they are within its capacity, and backfill
-- has never taken the live reserve.
pub pool-IsSound :
    (records bytes live_records live_bytes interval : ℕ) (b : SharedBudget) (cs : List Call)
    → new records bytes live_records live_bytes interval ≡ ok b
    → IsSound (calls (fresh b) cs)
pool-IsSound records bytes live_records live_bytes interval b cs h =
    calls-IsSound (fresh b) cs (fresh-IsSound records bytes live_records live_bytes interval b h)

-- However much backfill is outstanding, a live request that stays with the live requests
-- outstanding within the reserve is granted.
pub live_headroom :
    (p : Pool) (records bytes : ℕ)
    → IsSound p
    → 0 < records
    → outstanding (λ r. r.records) live p.held + records ≤ p.budget.reserve_records
    → outstanding (λ r. r.bytes) live p.held + bytes ≤ p.budget.reserve_bytes
    → try_acquire p.budget live records bytes
      ≡ ok (
        record p.budget { records = p.budget.records + records; bytes = p.budget.bytes + bytes },
        some (record { records = records; bytes = bytes; released = false }),
      )
unfolding try_acquire
live_headroom p records bytes h positive fits fits_bytes = ground arith

-- What is acquired and released leaves the budget as it was, and the same reservation cannot be
-- released again, from any budget.
pub release-try_acquire :
    (b c : SharedBudget) (kind : Lane) (records bytes : ℕ) (b' : SharedBudget) (r : Reservation)
    → try_acquire b kind records bytes ≡ ok (b', some r)
    → (release b' r ≡ ok (b, record r { released = true }))
      × (release c (record r { released = true })
          ≡ err (runtime_error "Reservation already released"))
unfolding try_acquire release
release-try_acquire b c kind records bytes b' r h = ground arith
