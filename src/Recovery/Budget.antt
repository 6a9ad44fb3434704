-- ===== src/Recovery/Budget.antt =====
-- src/scryntic/recovery/budget.py: `SharedBudget` and its reservations. The two counters are at
-- least 0 in Python too, since what a reservation gives back it took before (Budget/Lanes). The
-- floating-point seconds of the pacing gate are natural numbers of nanoseconds here.
pub mod Lanes
pub mod Pacing
use scryntic.Prelude.{
  ℕ, ◌+◌, ◌-◌, ◌*◌, Bool, true, false, ◌||◌, Option, none, some, List, [], ◌∷◌, ltb, leb,
  if◌then◌else◌, Result, ok, err, value_error, runtime_error, refuse, ◌>>=◌, ◌>>◌, get_elem?, set,
}

pub data Lane : Type 0 where
  live backfill : Lane

pub record Reservation : Type 0 where
  pub records : ℕ
  pub bytes : ℕ
  pub released : Bool

pub record SharedBudget : Type 0 where
  pub capacity_records : ℕ
  pub capacity_bytes : ℕ
  pub reserve_records : ℕ
  pub reserve_bytes : ℕ
  pub records : ℕ
  pub bytes : ℕ
  pub request_interval : ℕ
  pub next_request : ℕ

abbrev pub second : ℕ
second = 1_000_000_000

-- `SharedBudget.__init__`
unfoldable pub new : ℕ → ℕ → ℕ → ℕ → ℕ → Result SharedBudget
new records bytes live_records live_bytes interval = do
  refuse (ltb records 1 || (ltb bytes 1 || (ltb live_records 1 || ltb live_bytes 1)))
      (value_error "Integer below allowed minimum")
  refuse (leb records live_records || (leb bytes live_bytes || ltb (60 * second) interval))
      (value_error "Invalid shared source budget")
  ok (record {
    capacity_records = records;
    capacity_bytes = bytes;
    reserve_records = live_records;
    reserve_bytes = live_bytes;
    records = 0;
    bytes = 0;
    request_interval = interval;
    next_request = 0;
  })

abbrev pub limit_records : SharedBudget → Lane → ℕ
limit_records b live = b.capacity_records
limit_records b backfill = b.capacity_records - b.reserve_records

abbrev pub limit_bytes : SharedBudget → Lane → ℕ
limit_bytes b live = b.capacity_bytes
limit_bytes b backfill = b.capacity_bytes - b.reserve_bytes

unfoldable pub try_acquire :
    SharedBudget → Lane → ℕ → ℕ → Result (SharedBudget × Option Reservation)
try_acquire b kind records bytes = do
  refuse (ltb records 1) (value_error "Integer below allowed minimum")
  if ltb (limit_records b kind) (b.records + records) || ltb (limit_bytes b kind) (b.bytes + bytes)
      then ok (b, none)
      else ok (
        record b { records = b.records + records; bytes = b.bytes + bytes },
        some (record { records = records; bytes = bytes; released = false }),
      )

-- `Reservation.release`, with the budget that the reservation refers to
unfoldable pub release : SharedBudget → Reservation → Result (SharedBudget × Reservation)
release b r = do
  refuse r.released (runtime_error "Reservation already released")
  ok (
    record b { records = b.records - r.records; bytes = b.bytes - r.bytes },
    record r { released = true },
  )

-- `admit_request` when the monotonic clock reads `now`
unfoldable pub admit_request : SharedBudget → ℕ → SharedBudget × Bool
admit_request b now =
    if ltb now b.next_request
    then (b, false)
    else (record b { next_request = now + b.request_interval }, true)

-- A budget with the reservation objects that it has handed out, each with its lane.
pub record Pool : Type 0 where
  pub budget : SharedBudget
  pub held : List (Lane × Reservation)

pub data Call : Type 0 where
  acquire : Lane → ℕ → ℕ → Call
  give_back : ℕ → Call

granted : Pool → Lane → Result (SharedBudget × Option Reservation) → Pool
granted p kind (err e) = p
granted p kind (ok (b, none)) = record p { budget = b }
granted p kind (ok (b, some r)) = record { budget = b; held = (kind, r) ∷ p.held }

returned : Pool → ℕ → Lane → Result (SharedBudget × Reservation) → Pool
returned p i kind (err e) = p
returned p i kind (ok (b, r)) = record { budget = b; held = set p.held i (kind, r) }

-- One call of the event loop; an exception leaves all objects as they were.
unfoldable pub call : Pool → Call → Pool
unfolding granted returned
call p (acquire kind records bytes) = granted p kind (try_acquire p.budget kind records bytes)
call p (give_back i) = elim (get_elem? p.held i) [
  | none ↦ p
  | some (kind, r) ↦ returned p i kind (release p.budget r)
]

unfoldable pub calls : Pool → List Call → Pool
calls p [] = p
calls p (c ∷ cs) = calls (call p c) cs
