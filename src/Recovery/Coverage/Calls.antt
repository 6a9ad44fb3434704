-- ===== src/Recovery/Coverage/Calls.antt =====
-- src/scryntic/recovery/coverage.py: the calls that an owner of a ledger makes, in any order. An
-- exception of one is caught by the owner, who may go on. Between the calls the spool's writer may
-- fail and recover: the flag beside a call says whether the writer works then.
pub mod Keeps
pub mod Invariant
pub mod Stored
use scryntic.Prelude.{ℕ, String, Bool, List, [], ◌∷◌, Option, Result, ok}
use scryntic.Prelude.Action.{◌>>=◌, ◌>>◌, lift}
use scryntic.Prelude.Int.{ℤ}
use scryntic.Domain.Raw.{RawRecord}
use scryntic.Domain.Time.{ClockSample}
use scryntic.Ingestion.Metadata.{Bytes}
use scryntic.Recovery.Coverage.Contracts.{CandleEvidence, BookEvidence}
use scryntic.Recovery.Coverage.Ledger.{Codec, Ledger, LedgerAction, begin, finish, loss}
use scryntic.Recovery.Coverage.Observe.{observed}
use scryntic.Recovery.Coverage.Repair.{repair_page, exhaust, repair_attempt}
use scryntic.Recovery.Coverage.Book.{book_observed, resnapshot}

pub data Call : Type 0 where
  call_begin : ClockSample → Call
  call_finish : Call
  call_loss : ℤ → Option ℤ → String → ClockSample → Option ℤ → Option ℤ → Call
  call_observed : RawRecord → Option CandleEvidence → Call
  call_book : RawRecord → BookEvidence → Call
  call_resnapshot : ℤ → Call
  call_repair_page : ℕ → List ℤ → Option Bytes → ℕ → Bool → ℤ → List (ℤ × String) → Call
  call_exhaust : ℕ → String → Call
  call_repair_attempt : ℕ → Call

module _ (codec : Codec) where
  unfoldable pub run_call : Call → LedgerAction (Unit {0})
  run_call (call_begin sample) = begin codec sample
  run_call call_finish = finish codec
  run_call (call_loss start end reason sample first last) =
      loss codec start end reason sample first last
  run_call (call_observed raw evidence) = observed codec raw evidence
  run_call (call_book raw evidence) = book_observed codec raw evidence >> lift (ok tt)
  run_call (call_resnapshot sequence) = resnapshot codec sequence
  run_call (call_repair_page index starts cursor interval exhausted raw_offset candles) =
      repair_page codec index starts cursor interval exhausted raw_offset candles
  run_call (call_exhaust index reason) = exhaust codec index reason
  run_call (call_repair_attempt index) = repair_attempt codec index

  unfoldable pub run_calls : List (Call × Bool) → Ledger → Ledger
  run_calls [] l = l
  run_calls ((c, writable) ∷ cs) l =
      run_calls cs (run_call c (record l { spool = record l.spool { writable = writable } })).1
