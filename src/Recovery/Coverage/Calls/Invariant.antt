-- ===== src/Recovery/Coverage/Calls/Invariant.antt =====
-- src/scryntic/recovery/coverage.py: what holds of a ledger after any calls.
use scryntic.Prelude.{◌≤◌, ◌≡◌, Bool, true, false, List, [], ◌∷◌, length, refl, ap, ◌∙◌, map}
use scryntic.Ingestion.Metadata.{row}
use scryntic.Recovery.Coverage.Contracts.{span_limit}
use scryntic.Recovery.Coverage.Ledger.{Codec, Ledger}
use scryntic.Recovery.Coverage.Ledger.Extends.{
  Extends, Extends-refl, Keeps, after-Extends, begin-Extends, finish-Extends, loss-Extends, cause,
}
use scryntic.Recovery.Coverage.Calls.{
  Call, call_begin, call_finish, call_loss, call_observed, call_book, call_resnapshot,
  call_repair_page, call_exhaust, call_repair_attempt, run_call, run_calls,
}
use scryntic.Recovery.Coverage.Calls.Keeps.{
  observed-Extends, repair_page-Extends, exhaust-Extends, repair_attempt-Extends,
  resnapshot-Extends, book_observed-Extends,
}

-- Every call, whether it returns or raises, keeps what `Extends` names.
pub run_call-Extends : (codec : Codec) (c : Call) → Keeps (run_call codec c)
unfolding run_call
run_call-Extends codec (call_begin sample) = begin-Extends codec sample
run_call-Extends codec call_finish = finish-Extends codec
run_call-Extends codec (call_loss start end reason sample first last) =
    loss-Extends codec start end reason sample first last
run_call-Extends codec (call_observed raw evidence) = observed-Extends codec raw evidence
run_call-Extends codec (call_book raw evidence) =
    λ l. after-Extends _ _ (book_observed-Extends codec raw evidence l) (λ b _. Extends-refl _)
run_call-Extends codec (call_resnapshot sequence) = resnapshot-Extends codec sequence
run_call-Extends codec (call_repair_page index starts cursor interval exhausted offset candles) =
    repair_page-Extends codec index starts cursor interval exhausted offset candles
run_call-Extends codec (call_exhaust index reason) = exhaust-Extends codec index reason
run_call-Extends codec (call_repair_attempt index) = repair_attempt-Extends codec index

-- What holds of a ledger between two calls.
pub record IsSound (l : Ledger) : Type 0 where
  pub fail_closed : l.failed ≡ true → l.snapshot.book_valid ≡ false
  pub bounded : length l.snapshot.spans ≤ span_limit
  pub in_step : row l.stream.key l.spool.rows ≡ l.stored

pub Extends-IsSound : {l m : Ledger} → IsSound l → Extends l m → IsSound m
Extends-IsSound h k = record {
  fail_closed = k.invalid h.fail_closed;
  bounded = k.spans_bounded h.bounded;
  in_step = k.row_kept h.in_step;
}

-- After any calls, with the writer failing and recovering at will: a ledger that has failed shows
-- no valid book, at most 64 spans are kept, and the row of the stream is what the ledger compares
-- with at its next write.
pub run_calls-IsSound :
    (codec : Codec) (cs : List (Call × Bool)) (l : Ledger)
    → IsSound l
    → IsSound (run_calls codec cs l)
unfolding run_calls
run_calls-IsSound codec [] l h = h
run_calls-IsSound codec ((c, writable) ∷ cs) l h =
    let l' = record l { spool = record l.spool { writable = writable } } in
    run_calls-IsSound codec cs (run_call codec c l').1 (
      Extends-IsSound
        (record { fail_closed = h.fail_closed; bounded = h.bounded; in_step = h.in_step })
        (run_call-Extends codec c l'))

-- Once a ledger has failed, no later call changes a row of the spool, and the ledger stays failed
-- and keeps its spans, in number and order: each is as it was but for its end and its status.
pub run_calls-failed :
    (codec : Codec) (cs : List (Call × Bool)) (l : Ledger)
    → l.failed ≡ true
    → ((run_calls codec cs l).spool.rows ≡ l.spool.rows)
      × ((run_calls codec cs l).failed ≡ true)
      × (map cause (run_calls codec cs l).snapshot.spans ≡ map cause l.snapshot.spans)
unfolding run_calls
run_calls-failed codec [] l f = (refl, f, refl)
run_calls-failed codec ((c, writable) ∷ cs) l f =
    let l' = record l { spool = record l.spool { writable = writable } } in
    let k = run_call-Extends codec c l' in
    let (rows, failed, spans) =
      run_calls-failed codec cs (run_call codec c l').1 (k.failed_stays f) in
    (rows ∙ ap (λ s. s.rows) (k.frozen f), failed, spans ∙ k.causes_kept f)
