-- ===== src/Recovery/Supervisor/Repair.antt =====
-- src/scryntic/recovery/supervisor.py: `repair_once`, and what other tasks do meanwhile: at each
-- wait of a round the event loop may run other calls, which the round's `Fetch`, its `Page` and
-- each `Turn` of the page list.
use scryntic.Prelude.{
  ℕ, suc, ◌*◌, ◌%◌, String, Bool, true, false, not, ◌&&◌, ◌||◌, Option, none, some, List, [], ◌∷◌,
  ◌++◌, ltb, leb, ◌==◌, length, any, if◌then◌else◌, Result, ok, err, ingestion_error, value_error,
  refuse,
}
use scryntic.Prelude.Action.{◌>>=◌, ◌>>◌, lift}
use scryntic.Prelude.Int.{ℤ, pos, ◌+ℤ◌, ◌-ℤ◌, pos_part, ltb_ℤ, leb_ℤ, max_ℤ}
use scryntic.Domain.Raw.{RawEnvelope, RawRecord}
use scryntic.Domain.Time.{ClockSample}
use scryntic.Ingestion.Metadata.{Bytes, same_value}
use scryntic.Ingestion.Intake.{World}
use scryntic.Recovery.Budget.{backfill, try_acquire, admit_request}
use scryntic.Recovery.Coverage.Contracts.{
  CandleEvidence, CoverageSpan, pending, same_status, matches,
}
use scryntic.Recovery.Coverage.Ledger.{Codec}
use scryntic.Recovery.Coverage.Repair.{repair_page, repair_attempt, exhaust}
use scryntic.Recovery.Supervisor.{
  Setup, History, Supervisor, SupervisorAction, on_ledger, waited, spool_accept, reserved,
  parsed_candle, known_candle, same_sha, is_book, is_candle, transport_loss, ingest, stop_intake,
}

-- A call of another task, with the calls of further tasks while it waits for the spool and for the
-- lock. A call that begins in a wait also ends in it.
mutual
  pub data Event : Type 0 where
    ingested : World → RawEnvelope → Events → Events → Event
    lost : String → ClockSample → Event
    stopped : Event

  pub data Events : Type 0 where
    nothing : Events
    then_next : Event → Events → Events

-- an envelope of a page: how the spool does, and what goes on while the row waits for the lock, for
-- the spool's turn and after it
pub record Turn : Type 0 where
  pub world : World
  pub envelope : RawEnvelope
  pub at_lock : Events
  pub at_spool : Events
  pub after_spool : Events

pub record Page : Type 0 where
  pub turns : List Turn
  pub next_cursor : Option Bytes
  -- while the page waits for the lock
  pub at_record : Events

-- one round's outside: what goes on while it waits for the locks at its start, for the lock before
-- it notes its attempt or gives the span up, and for the source; the clock of the pacing gate; and the source's answer, which is a
-- page or an exception such as a timeout
pub record Fetch : Type 0 where
  pub now : ℕ
  pub at_start : Events
  pub at_attempt : Events
  pub meanwhile : Events
  pub answer : Result Page

pub record Collected : Type 0 where
  pub proven : List ℤ
  pub final_candles : List (ℤ × String)
  pub raw_offset : ℤ

pub data RepairAction : Type 0 where
  duplicate conflict outside admitted malformed : RepairAction

-- `known == evidence.market_sha256`, where there is a known one
abbrev pub duplicate_or_conflict : Bool → RepairAction
duplicate_or_conflict true = duplicate
duplicate_or_conflict false = conflict

-- `_repair_action`, for a span that has an end
unfoldable pub repair_action : ℤ → ℤ → Option CandleEvidence → Option String → RepairAction
repair_action start end none known = malformed
repair_action start end (some evidence) (some known) =
    duplicate_or_conflict (same_sha (some known) evidence.market_sha256)
repair_action start end (some evidence) none =
    if leb_ℤ start evidence.start_ns && ltb_ℤ evidence.start_ns end then admitted else outside

-- `_repair_rows` on the action, which an envelope of another stream makes malformed
unfoldable pub checked_action : Setup → ℤ → ℤ → Supervisor → RawEnvelope → RepairAction
checked_action setup start end s envelope =
    let evidence = parsed_candle setup envelope in
    if matches s.ledger.stream envelope
    then repair_action start end evidence (known_candle s.ledger evidence)
    else malformed

abbrev pub add_start : CandleEvidence → Collected → Collected
add_start evidence c = record c { proven = c.proven ++ evidence.start_ns ∷ [] }

abbrev pub add_sha : ℤ → Option String → Collected → Collected
add_sha start none c = c
add_sha start (some sha) c = record c { final_candles = c.final_candles ++ (start, sha) ∷ [] }

-- `_repair_rows` on an admitted envelope's evidence
unfoldable pub collect : Option CandleEvidence → Collected → Collected
collect none c = c
collect (some evidence) c =
    if evidence.finalized
    then add_sha evidence.start_ns evidence.market_sha256 (add_start evidence c)
    else c

unfoldable pub collect_known : Option CandleEvidence → Collected → Collected
collect_known none c = c
collect_known (some evidence) c = add_start evidence c

-- the first span that is pending and closed, with its index and its end
unfoldable pub pending_span : ℕ → List CoverageSpan → Option (ℕ × CoverageSpan × ℤ)
pending_span i [] = none
pending_span i (span ∷ spans) =
    let rest = pending_span (suc i) spans in
    elim span.end_ns [
      | none ↦ rest
      | some end ↦ if same_status span.status pending then some (i, span, end) else rest
    ]

unfoldable pub exceeds : Setup → ℕ → CoverageSpan → ℤ → Bool
exceeds setup interval span end =
    let width = pos_part (end -ℤ span.start_ns) in
    leb_ℤ (pos setup.limits.max_pages) span.attempts
    || (ltb (interval * setup.limits.max_candles) width || not (width % interval == 0))

-- `if not self.budget.admit_request(): return False`
unfoldable pub paced : ℕ → SupervisorAction Bool → SupervisorAction Bool
paced now within s =
    let (budget, admits) = admit_request s.budget now in
    if admits
    then within (record s { budget = budget })
    else (ok false, record s { budget = budget })

unfoldable pub min_ℕ : ℕ → ℕ → ℕ
min_ℕ a b = if ltb b a then b else a

unfoldable pub requested : SupervisorAction Bool
requested s = (ok true, record s { snapshot_required = false })

-- the tasks of the supervisor one after the other: a live call, or a repair round
pub data Task : Type 0 where
  live_call : Event → Task
  repair_round : Fetch → Task

module _ (codec : Codec) (sha256 : List ℕ → String) (setup : Setup) where
  unfoldable mutual
    pub run_event : Event → Supervisor → Supervisor
    run_event (ingested w envelope at_spool at_lock) s =
        (ingest codec sha256 setup w (run_events at_spool) (run_events at_lock) envelope s).1
    run_event (lost reason detected) s = (transport_loss codec sha256 setup reason detected s).1
    run_event stopped s = stop_intake s

    pub run_events : Events → Supervisor → Supervisor
    run_events nothing s = s
    run_events (then_next e es) s = run_events es (run_event e s)

  unfoldable pub refused_row : ℕ → String → SupervisorAction Collected
  refused_row index reason =
      on_ledger (exhaust codec index reason)
      >> lift (err (ingestion_error "Conflicting finalized or malformed candle recovery"))

  -- `_repair_rows` after the spool has accepted an envelope
  unfoldable pub repaired_as :
      ℕ → RepairAction → Option CandleEvidence → Collected → RawRecord → SupervisorAction Collected
  repaired_as index conflict evidence c raw s = refused_row index "repair-conflict" s
  repaired_as index malformed evidence c raw s = refused_row index "repair-malformed" s
  repaired_as index action evidence c raw s =
      (ok (collect evidence (record c { raw_offset = pos raw.identity.offset })), s)

  unfoldable pub accept_row : Turn → SupervisorAction RawRecord
  accept_row t s =
      let (answer, s1) =
        spool_accept codec sha256 setup t.world (run_events t.at_spool) t.envelope s in
      (answer, run_events t.after_spool s1)

  -- `_repair_rows`, the body of the loop
  unfoldable pub repair_row : ℕ → RepairAction → Turn → Collected → SupervisorAction Collected
  repair_row index duplicate t c s = (ok (collect_known (parsed_candle setup t.envelope) c), s)
  repair_row index outside t c s = (ok c, s)
  repair_row index action t c s =
      (accept_row t >>= repaired_as index action (parsed_candle setup t.envelope) c) s

  -- `_repair_rows`; the stop flag is looked at before each envelope, and not again in its waits
  unfoldable pub repair_rows : ℕ → ℤ → ℤ → List Turn → Collected → SupervisorAction Collected
  repair_rows index start end [] c s = (ok c, s)
  repair_rows index start end (t ∷ ts) c s =
      let s1 = run_events t.at_lock s in
      let body = repair_row index (checked_action setup start end s1 t.envelope) t c in
      if s.closed then (ok c, s) else (body >>= repair_rows index start end ts) s1

  unfoldable pub too_large : ℕ → History → Page → Bool
  too_large page_size history page =
      ltb page_size (length page.turns)
      || any (λ t. ltb history.max_payload_bytes (length t.envelope.payload)) page.turns

  unfoldable pub record_page : ℕ → CoverageSpan → ℕ → Page → Collected → SupervisorAction Bool
  record_page index span interval page c =
      waited (run_events page.at_record) (
        on_ledger (
          repair_page codec index c.proven page.next_cursor interval
            (same_value page.next_cursor none || same_value page.next_cursor span.cursor)
            c.raw_offset c.final_candles))
      >> lift (ok true)

  unfoldable pub repair_page_rows : ℕ → CoverageSpan → ℤ → ℕ → Page → SupervisorAction Bool
  repair_page_rows index span end interval page s =
      (repair_rows index span.start_ns end page.turns
            (record { proven = []; final_candles = []; raw_offset = s.ledger.snapshot.raw_offset })
          >>= record_page index span interval page)
        s

  -- the statements of `repair_once` after the page has come
  unfoldable pub take_page : ℕ → CoverageSpan → ℤ → ℕ → ℕ → History → Page → SupervisorAction Bool
  take_page index span end interval page_size history page =
      lift (
        refuse (too_large page_size history page)
          (ingestion_error "Historical page exceeds reservation"))
      >> repair_page_rows index span end interval page

  unfoldable pub fetch_page : Fetch → SupervisorAction Page
  fetch_page fetch s = (fetch.answer, run_events fetch.meanwhile s)

  unfoldable pub request_page :
      Fetch → ℕ → CoverageSpan → ℤ → ℕ → ℕ → History → SupervisorAction Bool
  request_page fetch index span end interval page_size history =
      lift (
        refuse (leb_ℤ (end +ℤ pos interval) (max_ℤ (pos 0) (span.start_ns -ℤ pos interval)))
          (value_error "Empty historical range"))
      >> (fetch_page fetch >>= take_page index span end interval page_size history)

  -- the `try` block of `repair_once` after the gate has admitted the request
  unfoldable pub repair_span :
      Fetch → ℕ → CoverageSpan → ℤ → ℕ → ℕ → History → SupervisorAction Bool
  repair_span fetch index span end interval page_size history =
      waited (run_events fetch.at_attempt) (on_ledger (repair_attempt codec index))
      >> request_page fetch index span end interval page_size history

  unfoldable pub repair_pending :
      Fetch → ℕ → History → Option (ℕ × CoverageSpan × ℤ) → SupervisorAction Bool
  repair_pending fetch interval history none s = (ok false, s)
  repair_pending fetch interval history (some (index, span, end)) s =
      let page_size = min_ℕ setup.limits.page_records history.max_page_records in
      if exceeds setup interval span end
      then (waited (run_events fetch.at_attempt) (on_ledger (exhaust codec index "repair-limit"))
            >> lift (ok true))
          s
      else reserved
          (try_acquire s.budget backfill page_size (page_size * history.max_payload_bytes))
          (lift (ok false))
          (paced fetch.now (repair_span fetch index span end interval page_size history)) s

  -- `_resnapshot` where the gate has admitted the request; the answer is that of `request_snapshot`
  unfoldable pub request_snapshot : Fetch → SupervisorAction Bool
  request_snapshot fetch s =
      (fetch_page fetch >> requested) (record s { snapshot_attempts = suc s.snapshot_attempts })

  unfoldable pub resnapshot : Fetch → SupervisorAction Bool
  resnapshot fetch s =
      if not s.snapshot_required || not setup.resnapshots
      then (ok false, s)
      else if leb setup.limits.max_pages s.snapshot_attempts
      then (err (ingestion_error "Resnapshot request quota reached"), s)
      else reserved (try_acquire s.budget backfill 1 setup.source_payload_bytes) (lift (ok false))
          (paced fetch.now (request_snapshot fetch)) s

  unfoldable pub repair_with : Fetch → Option ℕ → Option History → SupervisorAction Bool
  repair_with fetch (some interval) (some history) s =
      let s1 = run_events fetch.at_start s in
      if is_candle s.ledger.stream.family
      then repair_pending fetch interval history (pending_span 0 s1.ledger.snapshot.spans) s1
      else (ok false, s)
  repair_with fetch _ _ s = (ok false, s)

  unfoldable pub repair_once : Fetch → SupervisorAction Bool
  repair_once fetch s =
      if s.closed
      then (ok false, s)
      else if is_book s.ledger.stream.family
      then resnapshot fetch s
      else repair_with fetch setup.interval_ns setup.history s

  unfoldable pub run_tasks : List Task → Supervisor → Supervisor
  run_tasks [] s = s
  run_tasks (live_call e ∷ ts) s = run_tasks ts (run_event e s)
  run_tasks (repair_round fetch ∷ ts) s = run_tasks ts (repair_once fetch s).1
