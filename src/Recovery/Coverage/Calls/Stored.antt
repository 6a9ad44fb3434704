-- ===== src/Recovery/Coverage/Calls/Stored.antt =====
-- src/scryntic/recovery/coverage.py: a call that returns has stored what the ledger shows, and a
-- restart reads it back.
use scryntic.Prelude.{
  ◌≡◌, Bool, true, false, Option, none, some, arith, Result, ok, err, if◌then◌else◌, refl, String,
  value_error,
}
use scryntic.Prelude.Action.{after}
use scryntic.Prelude.Int.{ℤ}
use scryntic.Domain.Raw.{RawRecord}
use scryntic.Domain.Time.{ClockSample}
use scryntic.Domain.Validation.{identifier}
use scryntic.Ingestion.Metadata.{row, recovery_get}
use scryntic.Recovery.Coverage.Contracts.{
  CoverageSnapshot, CandleEvidence, BookEvidence, same_stream_refl,
}
use scryntic.Recovery.Coverage.Ledger.{
  Codec, Restores, Ledger, LedgerAction, document, is_valid_snapshot, open_ledger, save, begin,
  finish, append_span, loss,
}
use scryntic.Recovery.Coverage.Observe.{save_offset, observed}
use scryntic.Recovery.Coverage.Repair.{repair_page, exhaust, repair_attempt}
use scryntic.Recovery.Coverage.Book.{resnapshot, follow, delta_after, book_delta, book_observed}
use scryntic.Recovery.Coverage.Calls.{
  Call, call_begin, call_finish, call_loss, call_observed, call_book, call_resnapshot,
  call_repair_page, call_exhaust, call_repair_attempt, run_call,
}
use scryntic.Recovery.Coverage.Calls.Invariant.{IsSound, run_call-Extends}

module _ (codec : Codec) where
  -- The stored bytes are the document of the snapshot in memory.
  abbrev pub Persisted : Ledger → Type 0
  Persisted l = (l.stored ≡ some (codec.dumps (document codec l l.snapshot))) × (l.failed ≡ false)

  -- where the method returns, its state is persisted
  abbrev Stores : {A : Type 0} → Result A × Ledger → Type 0
  Stores {A} r = (a : A) → r.0 ≡ ok a → Persisted r.1

  after-Stores :
      {A B : Type 0} (r : Result A × Ledger) (f : A → LedgerAction B)
      → ((a : A) → r.0 ≡ ok a → Stores (f a r.1))
      → Stores (after r f)
  unfolding after
  after-Stores (ok a, l) f h = h a refl
  after-Stores (err e, l) f h = λ b p. cc

  if-Stores :
      {A : Type 0} (b : Bool) (x y : Result A × Ledger)
      → Stores x
      → Stores y
      → Stores (if b then x else y)
  if-Stores true x y h k = h
  if-Stores false x y h k = k

  save-Stores :
      (snapshot : CoverageSnapshot) (restart : Bool) (l : Ledger)
      → Stores (save codec snapshot restart l)
  unfolding save
  save-Stores snapshot restart l u h = (ground arith, ground arith)

  observed-Stores :
      (raw : RawRecord) (evidence : Option CandleEvidence) (l : Ledger)
      → Stores (observed codec raw evidence l)
  unfolding observed save_offset
  observed-Stores raw evidence l =
      after-Stores _ _ λ u _. after-Stores _ _ λ v _. after-Stores _ _ λ w _. save-Stores _ false _

  loss-Stores :
      (start : ℤ) (end : Option ℤ) (reason : String) (sample : ClockSample) (first last : Option ℤ)
      (l : Ledger)
      → Stores (loss codec start end reason sample first last l)
  unfolding loss append_span
  loss-Stores start end reason sample first last l =
      after-Stores _ _ λ span _. after-Stores _ _ λ u _. save-Stores _ false _

  resnapshot-Stores : (sequence : ℤ) (l : Ledger) → Stores (resnapshot codec sequence l)
  unfolding resnapshot
  resnapshot-Stores sequence l =
      if-Stores _ _ (err (value_error "Resnapshot requires book family"), l) (save-Stores _ false l)
        (λ u h. cc)

  delta_after-Stores :
      (last : Option ℤ) (sequence : ℤ) (sample : ClockSample) (l : Ledger)
      → Persisted l
      → Stores (delta_after codec last sequence sample l)
  unfolding delta_after follow
  delta_after-Stores none sequence sample l p = λ b h. p
  delta_after-Stores (some last) sequence sample l p =
      if-Stores _ _ _ (λ b h. p)
        (if-Stores _ _ _ (after-Stores _ _ λ u e b h. save-Stores _ false l u e)
          (after-Stores _ _ λ u e b h. loss-Stores _ _ _ _ _ _ l u e))

  book_observed-Stores :
      (raw : RawRecord) (evidence : BookEvidence) (l : Ledger)
      → Stores (book_observed codec raw evidence l)
  unfolding book_observed book_delta
  book_observed-Stores raw evidence l = after-Stores _ _ λ u e.
      let p = observed-Stores raw none l u e in
      if-Stores _ _ _ (after-Stores _ _ λ v k b h. resnapshot-Stores evidence.sequence _ v k)
        (delta_after-Stores _ evidence.sequence _ _ p)

  run_call-Stores : (c : Call) (l : Ledger) → Stores (run_call codec c l)
  unfolding run_call begin finish repair_page exhaust repair_attempt
  run_call-Stores (call_begin sample) l = save-Stores _ true l
  run_call-Stores call_finish l = save-Stores _ false l
  run_call-Stores (call_loss start end reason sample first last) l =
      loss-Stores start end reason sample first last l
  run_call-Stores (call_observed raw evidence) l = observed-Stores raw evidence l
  run_call-Stores (call_book raw evidence) l =
      after-Stores _ _ λ b e u h. book_observed-Stores raw evidence l b e
  run_call-Stores (call_resnapshot sequence) l = resnapshot-Stores sequence l
  run_call-Stores (call_repair_page index starts cursor interval exhausted offset candles) l =
      after-Stores _ _ λ span _.
        after-Stores _ _
          λ end _. after-Stores _ _ λ updated _. after-Stores _ _ λ v _. save-Stores _ false l
  run_call-Stores (call_exhaust index reason) l =
      after-Stores _ _ λ span _. after-Stores _ _ λ updated _. save-Stores _ false l
  run_call-Stores (call_repair_attempt index) l = after-Stores _ _ λ span _. save-Stores _ false l

  open-Persisted :
      (l : Ledger) (baseline_ns : ℤ)
      → Restores codec (document codec l l.snapshot)
      → Persisted l
      → row l.stream.key l.spool.rows ≡ l.stored
      → identifier l.stream.key ≡ ok tt
      → l.spool.writable ≡ true
      → is_valid_snapshot l.snapshot ≡ true
      → open_ledger codec l.spool l.stream baseline_ns ≡ ok l
  unfolding open_ledger recovery_get
  open-Persisted l baseline_ns restored p step named writable valid =
      ground (arith, restored, same_stream_refl l.stream)

  -- If `json` loads the document that it dumped last, then after a call that returns, opening the ledger again from
  -- the spool, for the same stream and while its writer works, gives the very ledger that the call
  -- left, provided that the stream's key is an identifier and the snapshot is one that the
  -- constructors accept.
  pub open_ledger-run_call :
      (c : Call) (l : Ledger) (baseline_ns : ℤ) {u : Unit {0}}
      → Restores codec (document codec (run_call codec c l).1 (run_call codec c l).1.snapshot)
      → IsSound l
      → (run_call codec c l).0 ≡ ok u
      → identifier (run_call codec c l).1.stream.key ≡ ok tt
      → (run_call codec c l).1.spool.writable ≡ true
      → is_valid_snapshot (run_call codec c l).1.snapshot ≡ true
      → open_ledger codec (run_call codec c l).1.spool (run_call codec c l).1.stream baseline_ns
        ≡ ok (run_call codec c l).1
  open_ledger-run_call c l baseline_ns {u} restored sound returned named writable valid =
      open-Persisted (run_call codec c l).1 baseline_ns restored (run_call-Stores c l u returned)
        ((run_call-Extends codec c l).row_kept sound.in_step) named writable valid
