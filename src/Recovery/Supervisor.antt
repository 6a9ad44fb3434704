-- ===== src/Recovery/Supervisor.antt =====
-- src/scryntic/recovery/supervisor.py: the live side of `SourceSupervisor`, which tells one source's
-- ledger of what the spool has accepted. What runs under the supervisor's lock is one step; where a
-- call waits, for the lock or for the spool, other tasks go on, which an argument `wait` stands
-- for. The source and its parsers are arguments.
pub mod Repair
pub mod Rules
pub mod Calls
pub mod Rounds
pub mod Lease
pub mod Evidence
pub mod Proof
use scryntic.Prelude.{
  ℕ, suc, String, Bool, true, false, not, ◌&&◌, ◌||◌, Option, none, some, List, [], ◌∷◌, leb, ◌==◌,
  length, any, if◌then◌else◌, Result, ok, err, Error, ingestion_error, intake_full,
}
use scryntic.Prelude.Action.{Action, ◌>>=◌, ◌>>◌, lift}
use scryntic.Prelude.Int.{ℤ, pos, ◌+ℤ◌}
use scryntic.Prelude.Text.{str_eq}
use scryntic.Clock.Contracts.{ClockLimits}
use scryntic.Clock.Policy.{is_final}
use scryntic.Domain.Raw.{RawEnvelope, RawRecord}
use scryntic.Domain.Time.{ClockSample}
use scryntic.Ingestion.Intake.{Intake, World, accept}
use scryntic.Recovery.Budget.{SharedBudget, Reservation, Lane, live, try_acquire, release}
use scryntic.Recovery.Coverage.Contracts.{
  CandleEvidence, BookEvidence, CoverageSpan, Family, book, candle, same_status, complete, matches,
}
use scryntic.Recovery.Coverage.Ledger.{Codec, Ledger, LedgerAction, loss}
use scryntic.Recovery.Coverage.Observe.{observed, dict_get, dict_update}
use scryntic.Recovery.Coverage.Book.{book_observed}

pub data SupervisorState : Type 0 where
  starting healthy degraded stopping failed : SupervisorState

pub record RepairLimits : Type 0 where
  pub page_records : ℕ
  pub max_pages : ℕ
  pub max_candles : ℕ
  pub max_rejections : ℕ

-- what a historical source's descriptor says
pub record History : Type 0 where
  pub max_page_records : ℕ
  pub max_payload_bytes : ℕ

-- what the constructor of a supervisor is given and keeps
pub record Setup : Type 0 where
  pub reporting : Bool
  pub resnapshots : Bool
  pub source_payload_bytes : ℕ
  pub history : Option History
  pub candle_parser : Option (RawEnvelope → Option CandleEvidence)
  pub book_parser : Option (RawRecord → Option BookEvidence)
  pub interval_ns : Option ℕ
  pub limits : RepairLimits
  pub clock_limits : ClockLimits

pub record Supervisor : Type 0 where
  pub ledger : Ledger
  pub intake : Intake
  pub budget : SharedBudget
  pub state : SupervisorState
  pub rejections : ℕ
  pub closed : Bool
  pub snapshot_required : Bool
  pub snapshot_attempts : ℕ

abbrev pub SupervisorAction : Type 0 → Type 0
SupervisorAction A = Action Supervisor A

unfoldable pub on_ledger : {A : Type 0} → LedgerAction A → SupervisorAction A
on_ledger m s = let (out, ledger) = m s.ledger in (out, record s { ledger = ledger })

abbrev pub is_book : Family → Bool
is_book book = true
is_book _ = false

abbrev pub is_candle : Family → Bool
is_candle candle = true
is_candle _ = false

-- a call that first waits, while other tasks go on
unfoldable pub waited :
    {A : Type 0} → (Supervisor → Supervisor) → SupervisorAction A → SupervisorAction A
waited wait m s = m (wait s)

-- `try … finally: reservation.release()`
unfoldable pub given_back :
    {A : Type 0} → Reservation → Result A × Supervisor → Result A × Supervisor
given_back r (out, s) = elim (release s.budget r) [
  | err e ↦ (err e, s)
  | ok (budget, released) ↦ (out, record s { budget = budget })
]

-- a call that needs a reservation, with what is done where there is none
unfoldable pub reserved :
    {A : Type 0}
    → Result (SharedBudget × Option Reservation)
    → SupervisorAction A
    → SupervisorAction A
    → SupervisorAction A
reserved (err e) without within s = (err e, s)
reserved (ok (budget, none)) without within s = without (record s { budget = budget })
reserved (ok (budget, some r)) without within s =
    given_back r (within (record s { budget = budget }))

unfoldable pub has_interval : Option ℕ → ℕ → Bool
has_interval none n = false
has_interval (some interval) n = n == interval

-- the tests of `_candle` on what the parser gives
unfoldable pub final_candle : Setup → ClockSample → Option CandleEvidence → Option CandleEvidence
final_candle setup receipt none = none
final_candle setup receipt (some evidence) =
    if not (has_interval setup.interval_ns evidence.interval_ns)
    then none
    else if evidence.finalized
        && not (is_final receipt (evidence.start_ns +ℤ pos evidence.interval_ns) setup.clock_limits)
    then some (record evidence { finalized = false })
    else some evidence

-- `_candle`
unfoldable pub parsed_candle : Setup → RawEnvelope → Option CandleEvidence
parsed_candle setup envelope = elim setup.candle_parser [
  | none ↦ none
  | some parser ↦ final_candle setup envelope.receipt (parser envelope)
]

-- `_known_candle`
unfoldable pub known_candle : Ledger → Option CandleEvidence → Option String
known_candle l none = none
known_candle l (some evidence) =
    dict_get evidence.start_ns (dict_update [] l.snapshot.final_candles)

unfoldable pub same_sha : Option String → Option String → Bool
same_sha (some a) (some b) = str_eq a b
same_sha _ _ = false

unfoldable pub sha_of : Option CandleEvidence → Option String
sha_of none = none
sha_of (some evidence) = evidence.market_sha256

-- the test of `ingest` for a final candle that the ledger has
unfoldable pub is_duplicate : Setup → Ledger → RawEnvelope → Bool
is_duplicate setup l envelope =
    let evidence = parsed_candle setup envelope in
    matches l.stream envelope && same_sha (known_candle l evidence) (sha_of evidence)

unfoldable pub is_incomplete : CoverageSpan → Bool
is_incomplete span = not (same_status span.status complete)

unfoldable pub is_missing {ℓ} : {A : Type ℓ} → Option A → Bool
is_missing none = true
is_missing (some a) = false

unfoldable pub parsed_book : Setup → RawRecord → Option BookEvidence
parsed_book setup raw = elim setup.book_parser [ none ↦ none | some parser ↦ parser raw ]

-- the fields that `_observe` sets after `book_observed`
unfoldable pub note_book : BookEvidence → Bool → SupervisorAction (Unit {0})
note_book evidence valid s = (
  ok tt,
  record s {
    snapshot_required = not valid;
    snapshot_attempts = if valid && evidence.is_snapshot then 0 else s.snapshot_attempts;
  },
)

-- the last statement of `ingest`
unfoldable pub settle : SupervisorAction Bool
settle s = (
  ok true,
  record s { state = if any is_incomplete s.ledger.snapshot.spans then degraded else healthy },
)

module _ (codec : Codec) (sha256 : List ℕ → String) (setup : Setup) where
  unfoldable pub transport_loss : String → ClockSample → SupervisorAction (Unit {0})
  transport_loss reason detected s =
      let marked = record s {
        state = degraded;
        snapshot_required = is_book s.ledger.stream.family || s.snapshot_required;
      } in
      on_ledger (loss codec s.ledger.snapshot.checkpoint_ns none reason detected none none) marked

  -- `_observe` of a record whose evidence is missing
  unfoldable pub reject : ClockSample → SupervisorAction (Unit {0})
  reject receipt s =
      let counted = record s { rejections = suc s.rejections } in
      (on_ledger (loss codec s.ledger.snapshot.checkpoint_ns none "malformed" receipt none none)
          >> (λ t.
              if leb setup.limits.max_rejections t.rejections
              then (err (ingestion_error "Recovery rejection quota reached"), t)
              else (ok tt, t)))
        counted

  unfoldable pub observe_book :
      RawRecord → Option CandleEvidence → Option BookEvidence → SupervisorAction (Unit {0})
  observe_book raw evidence none = on_ledger (observed codec raw evidence)
  observe_book raw evidence (some b) = on_ledger (book_observed codec raw b) >>= note_book b

  -- `_observe`
  unfoldable pub observe : RawRecord → SupervisorAction (Unit {0})
  observe raw s =
      let evidence = parsed_candle setup raw.envelope in
      let update = parsed_book setup raw in
      let family = s.ledger.stream.family in
      if (is_candle family && is_missing evidence) || (is_book family && is_missing update)
      then reject raw.envelope.receipt s
      else observe_book raw evidence update s

  unfoldable pub overflow : (Supervisor → Supervisor) → RawEnvelope → SupervisorAction Bool
  overflow at_lock envelope =
      waited at_lock (transport_loss "overflow" envelope.receipt) >> lift (ok false)

  -- `ingest` after the spool's answer
  unfoldable pub accepted_as :
      (Supervisor → Supervisor) → RawEnvelope → Result RawRecord → SupervisorAction Bool
  accepted_as at_lock envelope (err intake_full) s = overflow at_lock envelope s
  accepted_as at_lock envelope (err e) s = (err e, s)
  accepted_as at_lock envelope (ok raw) s =
      if matches s.ledger.stream envelope
      then (waited at_lock (observe raw) >> settle) s
      else (err (ingestion_error "Source envelope identity mismatch"), s)

  -- `await _io(lambda: self.spool.accept(envelope))`
  unfoldable pub spool_accept :
      World → (Supervisor → Supervisor) → RawEnvelope → Supervisor → Result RawRecord × Supervisor
  spool_accept w at_spool envelope s =
      let s1 = at_spool s in
      let (answer, intake) = accept sha256 w envelope s1.intake in
      (answer, record s1 { intake = intake })

  -- the `try` block of `ingest`
  unfoldable pub admit :
      World
      → (Supervisor → Supervisor)
      → (Supervisor → Supervisor)
      → RawEnvelope
      → SupervisorAction Bool
  admit w at_spool at_lock envelope s =
      let (answer, s1) = spool_accept w at_spool envelope s in
      if is_duplicate setup s.ledger envelope
      then (ok true, s)
      else accepted_as at_lock envelope answer s1

  -- `ingest`: what goes on while it waits for the spool, and then for the lock
  unfoldable pub ingest :
      World
      → (Supervisor → Supervisor)
      → (Supervisor → Supervisor)
      → RawEnvelope
      → SupervisorAction Bool
  ingest w at_spool at_lock envelope s =
      if s.closed
      then (ok false, s)
      else if setup.reporting
      then admit w at_spool at_lock envelope s
      else reserved (try_acquire s.budget live 1 (length envelope.payload))
          (overflow at_lock envelope) (admit w at_spool at_lock envelope) s

unfoldable pub stop_intake : Supervisor → Supervisor
stop_intake s = record s { closed = true; state = elim s.state [ failed ↦ failed | _ ↦ stopping ] }
