-- ===== src/Tests/Budget.antt =====
-- src/scryntic/recovery/budget.py and the recovery rows of the spool at concrete values.
use scryntic.Domain.Validation.{identifier}
use scryntic.Prelude.{
  ◌≤◌, ◌≡◌, true, false, some, List, [], ◌∷◌, ok, err, runtime_error, refl, arith, All, String,
  if◌then◌else◌,
}
use scryntic.Prelude.Text.{str_eq}
use scryntic.Ingestion.Metadata.{
  upsert, same_bytes, Spool, row, recovery_put, metadata_streams, metadata_bytes,
}
use scryntic.Ingestion.Metadata.Rows.{recovery_put_cas}
use scryntic.Recovery.Budget.{
  SharedBudget, Reservation, Pool, Call, acquire, give_back, live, backfill, new, try_acquire,
  release, call, calls,
}
use scryntic.Recovery.Budget.Lanes.{
  IsSound, fresh, pool-IsSound, live_headroom, outstanding, release-try_acquire,
}
use scryntic.Recovery.Budget.Pacing.{admitted, Spaced, admitted-Spaced}

abbrev budget : SharedBudget
budget = record {
  capacity_records = 10;
  capacity_bytes = 1_000;
  reserve_records = 4;
  reserve_bytes = 400;
  records = 0;
  bytes = 0;
  request_interval = 50;
  next_request = 0;
}

new_test : new 10 1_000 4 400 50 ≡ ok budget
unfolding new
new_test = refl

abbrev requests : List Call
requests =
    acquire backfill 6 600
    ∷ acquire backfill 1 1
    ∷ acquire live 4 400
    ∷ give_back 0
    ∷ give_back 0
    ∷ []

pool-IsSound_example : IsSound (calls (fresh budget) requests)
pool-IsSound_example = pool-IsSound 10 1_000 4 400 50 budget requests new_test

abbrev taken : SharedBudget
taken = record budget { records = 6; bytes = 600 }

abbrev six_records : Reservation
six_records = record { records = 6; bytes = 600; released = false }

taken_test : try_acquire budget backfill 6 600 ≡ ok (taken, some six_records)
unfolding try_acquire
taken_test = refl

release-try_acquire_example :
    (release taken six_records ≡ ok (budget, record six_records { released = true }))
    × (release taken (record six_records { released = true })
        ≡ err (runtime_error "Reservation already released"))
release-try_acquire_example =
    release-try_acquire budget taken backfill 6 600 taken six_records taken_test

abbrev busy : Pool
busy = calls (fresh budget) (acquire backfill 6 600 ∷ [])

live_headroom_example :
    try_acquire busy.budget live 4 400
    ≡ ok (
      record budget { records = 10; bytes = 1_000 },
      some (record { records = 4; bytes = 400; released = false }),
    )
unfolding calls call outstanding try_acquire
live_headroom_example =
    live_headroom busy 4 400
      (pool-IsSound 10 1_000 4 400 50 budget (acquire backfill 6 600 ∷ []) new_test) (omega arith)
      (omega arith) (omega arith)

admitted-Spaced_example :
    Spaced 50 (admitted budget (3 ∷ 40 ∷ 53 ∷ 200 ∷ []))
    × All (λ y. 0 ≤ y) (admitted budget (3 ∷ 40 ∷ 53 ∷ 200 ∷ []))
admitted-Spaced_example = admitted-Spaced budget (3 ∷ 40 ∷ 53 ∷ 200 ∷ [])

abbrev spool : Spool
spool = record { rows = ("a", 1 ∷ []) ∷ ("b", 2 ∷ []) ∷ []; writable = true }

recovery_put_cas_example :
    (row "b" spool.rows ≡ some (2 ∷ []))
    × ((j : String)
        → row j (("a", 1 ∷ []) ∷ ("b", 3 ∷ []) ∷ [])
          ≡ (if str_eq "b" j then some (3 ∷ []) else row j spool.rows))
    × (2 ≤ metadata_streams)
    × (1 ≤ metadata_bytes)
unfolding recovery_put identifier row same_bytes upsert
recovery_put_cas_example =
    recovery_put_cas spool "b" (3 ∷ []) (some (2 ∷ []))
      (record { rows = ("a", 1 ∷ []) ∷ ("b", 3 ∷ []) ∷ []; writable = true }) refl (omega arith)
