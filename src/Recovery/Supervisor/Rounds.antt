-- ===== src/Recovery/Supervisor/Rounds.antt =====
-- src/scryntic/recovery/supervisor.py: what the repair rounds keep, by the rules of a relation.
use scryntic.Prelude.{
  ℕ, suc, ◌*◌, String, Bool, false, not, ◌||◌, Option, none, some, List, [], ◌∷◌, ok, refl, leb,
}
use scryntic.Prelude.Action.{◌>>=◌, lift}
use scryntic.Prelude.Int.{ℤ}
use scryntic.Domain.Raw.{RawRecord}
use scryntic.Recovery.Budget.{backfill}
use scryntic.Recovery.Coverage.Contracts.{CandleEvidence, CoverageSpan}
use scryntic.Recovery.Coverage.Ledger.{Codec}
use scryntic.Ingestion.Metadata.{same_value}
use scryntic.Recovery.Coverage.Calls.Keeps.{
  repair_page-Extends, exhaust-Extends, repair_attempt-Extends,
}
use scryntic.Recovery.Coverage.Repair.{exhaust, repair_page, repair_attempt}
use scryntic.Recovery.Supervisor.{
  Setup, History, Supervisor, SupervisorAction, is_book, is_candle, parsed_candle, spool_accept,
}
use scryntic.Recovery.Supervisor.Repair.{
  Turn, Page, Fetch, Collected, RepairAction, duplicate, conflict, outside, malformed, Task,
  live_call, repair_round, run_tasks, run_event, run_events, refused_row, repaired_as, accept_row,
  repair_row, repair_rows, take_page, fetch_page, record_page, repair_page_rows, request_page,
  repair_span, paced, repair_pending, requested, request_snapshot, resnapshot, repair_with,
  repair_once, exceeds, min_ℕ, pending_span, checked_action,
}
use scryntic.Recovery.Supervisor.Rules.{
  Keeps, Rules, same, after-Keeps, >>=-Keeps, if-Keeps, paced-Keeps, waited-Keeps,
}
use scryntic.Recovery.Supervisor.Calls.{run_event-Keeps, run_events-Keeps, spool_accept-Keeps}

module _ (R : Supervisor → Supervisor → Type 0) (rules : Rules R) (codec : Codec)
    (sha256 : List ℕ → String) (setup : Setup) where
  refused_row-Keeps :
      (index : ℕ) (reason : String) → Keeps R (refused_row codec sha256 setup index reason)
  unfolding refused_row
  refused_row-Keeps index reason s =
      after-Keeps R rules s _ _
        (rules.tell (exhaust codec index reason) (exhaust-Extends codec index reason) s)
        (λ u t. same R rules t)

  repaired_as-Keeps :
      (index : ℕ) (action : RepairAction) (evidence : Option CandleEvidence) (c : Collected)
      (raw : RawRecord)
      → Keeps R (repaired_as codec sha256 setup index action evidence c raw)
  unfolding repaired_as
  repaired_as-Keeps index conflict evidence c raw s = refused_row-Keeps index "repair-conflict" s
  repaired_as-Keeps index malformed evidence c raw s = refused_row-Keeps index "repair-malformed" s
  repaired_as-Keeps index action evidence c raw s = same R rules s

  accept_row-Keeps : (t : Turn) → Keeps R (accept_row codec sha256 setup t)
  unfolding accept_row
  accept_row-Keeps t s =
      let during = run_events codec sha256 setup t.at_spool in
      let (answer, s1) = spool_accept codec sha256 setup t.world during t.envelope s in
      let kept = run_events-Keeps R rules codec sha256 setup in
      rules.chain s s1 (run_events codec sha256 setup t.after_spool s1)
        (spool_accept-Keeps R rules codec sha256 setup t.world during during (kept t.at_spool)
          (kept t.at_spool) t.envelope s)
        (kept t.after_spool s1)

  accepted_row-Keeps :
      (index : ℕ) (action : RepairAction) (t : Turn) (c : Collected)
      → Keeps R (
          accept_row codec sha256 setup t
          >>= repaired_as codec sha256 setup index action (parsed_candle setup t.envelope) c)
  accepted_row-Keeps index action t c =
      >>=-Keeps R rules (accept_row codec sha256 setup t)
        (repaired_as codec sha256 setup index action (parsed_candle setup t.envelope) c)
        (accept_row-Keeps t) (repaired_as-Keeps index action (parsed_candle setup t.envelope) c)

  pub repair_row-Keeps :
      (index : ℕ) (action : RepairAction) (t : Turn) (c : Collected)
      → Keeps R (repair_row codec sha256 setup index action t c)
  unfolding repair_row
  repair_row-Keeps index duplicate t c s = same R rules s
  repair_row-Keeps index outside t c s = same R rules s
  repair_row-Keeps index action t c s = accepted_row-Keeps index action t c s

  repair_rows-Keeps :
      (index : ℕ) (start end : ℤ) (ts : List Turn) (c : Collected)
      → Keeps R (repair_rows codec sha256 setup index start end ts c)
  unfolding repair_rows
  repair_rows-Keeps index start end [] c s = same R rules s
  repair_rows-Keeps index start end (t ∷ ts) c s =
      let s1 = run_events codec sha256 setup t.at_lock s in
      let body =
        repair_row codec sha256 setup index (checked_action setup start end s1 t.envelope) t c in
      let rest = repair_rows codec sha256 setup index start end ts in
      if-Keeps R rules s s.closed (ok c, s) ((body >>= rest) s1) (same R rules s)
        (rules.chain s s1 ((body >>= rest) s1).1
          (run_events-Keeps R rules codec sha256 setup t.at_lock s)
          (>>=-Keeps R rules body rest (repair_row-Keeps index _ t c)
            (repair_rows-Keeps index start end ts) s1))

  record_page-Keeps :
      (index : ℕ) (span : CoverageSpan) (interval : ℕ) (page : Page) (c : Collected)
      → Keeps R (record_page codec sha256 setup index span interval page c)
  unfolding record_page
  record_page-Keeps index span interval page c s =
      let exhausted = same_value page.next_cursor none || same_value page.next_cursor span.cursor in
      after-Keeps R rules s _ _
        (waited-Keeps R rules (run_events codec sha256 setup page.at_record) _
          (run_events-Keeps R rules codec sha256 setup page.at_record)
          (rules.tell
            (repair_page codec index c.proven page.next_cursor interval exhausted c.raw_offset
              c.final_candles)
            (repair_page-Extends codec index c.proven page.next_cursor interval exhausted
              c.raw_offset c.final_candles))
          s)
        (λ u t. same R rules t)

  repair_page_rows-Keeps :
      (index : ℕ) (span : CoverageSpan) (end : ℤ) (interval : ℕ) (page : Page)
      → Keeps R (repair_page_rows codec sha256 setup index span end interval page)
  unfolding repair_page_rows
  repair_page_rows-Keeps index span end interval page s =
      after-Keeps R rules s _ (record_page codec sha256 setup index span interval page)
        (repair_rows-Keeps index span.start_ns end page.turns _ s)
        (record_page-Keeps index span interval page)

  take_page-Keeps :
      (index : ℕ) (span : CoverageSpan) (end : ℤ) (interval page_size : ℕ) (history : History)
      (page : Page)
      → Keeps R (take_page codec sha256 setup index span end interval page_size history page)
  unfolding take_page
  take_page-Keeps index span end interval page_size history page s =
      after-Keeps R rules s _
        (λ u. repair_page_rows codec sha256 setup index span end interval page) (same R rules s)
        (λ u. repair_page_rows-Keeps index span end interval page)

  fetch_page-Keeps : (fetch : Fetch) → Keeps R (fetch_page codec sha256 setup fetch)
  unfolding fetch_page
  fetch_page-Keeps fetch s = run_events-Keeps R rules codec sha256 setup fetch.meanwhile s

  request_page-Keeps :
      (fetch : Fetch) (index : ℕ) (span : CoverageSpan) (end : ℤ) (interval page_size : ℕ)
      (history : History)
      → Keeps R (request_page codec sha256 setup fetch index span end interval page_size history)
  unfolding request_page
  request_page-Keeps fetch index span end interval page_size history s =
      let take = take_page codec sha256 setup index span end interval page_size history in
      after-Keeps R rules s _ (λ u. fetch_page codec sha256 setup fetch >>= take) (same R rules s)
        (λ u.
          >>=-Keeps R rules (fetch_page codec sha256 setup fetch) take (fetch_page-Keeps fetch)
            (take_page-Keeps index span end interval page_size history))

  repair_span-Keeps :
      (fetch : Fetch) (index : ℕ) (span : CoverageSpan) (end : ℤ) (interval page_size : ℕ)
      (history : History)
      → Keeps R (repair_span codec sha256 setup fetch index span end interval page_size history)
  unfolding repair_span
  repair_span-Keeps fetch index span end interval page_size history s =
      after-Keeps R rules s _
        (λ u. request_page codec sha256 setup fetch index span end interval page_size history)
        (waited-Keeps R rules (run_events codec sha256 setup fetch.at_attempt) _
          (run_events-Keeps R rules codec sha256 setup fetch.at_attempt)
          (rules.tell (repair_attempt codec index) (repair_attempt-Extends codec index)) s)
        (λ u. request_page-Keeps fetch index span end interval page_size history)

  repair_pending-Keeps :
      (fetch : Fetch) (interval : ℕ) (history : History) (found : Option (ℕ × CoverageSpan × ℤ))
      → Keeps R (repair_pending codec sha256 setup fetch interval history found)
  unfolding repair_pending
  repair_pending-Keeps fetch interval history none s = same R rules s
  repair_pending-Keeps fetch interval history (some (index, span, end)) s =
      let page_size = min_ℕ setup.limits.page_records history.max_page_records in
      let within = repair_span codec sha256 setup fetch index span end interval page_size history in
      let without : SupervisorAction Bool = lift (ok false) in
      if-Keeps R rules s (exceeds setup interval span end) _ _
        (after-Keeps R rules s _ _
          (waited-Keeps R rules (run_events codec sha256 setup fetch.at_attempt) _
            (run_events-Keeps R rules codec sha256 setup fetch.at_attempt)
            (rules.tell (exhaust codec index "repair-limit")
              (exhaust-Extends codec index "repair-limit"))
            s)
          (λ u t. same R rules t))
        (rules.lease backfill page_size (page_size * history.max_payload_bytes) without
          (paced fetch.now within) (λ t. same R rules t)
          (paced-Keeps R rules fetch.now within
            (repair_span-Keeps fetch index span end interval page_size history))
          s)

  request_snapshot-Keeps : (fetch : Fetch) → Keeps R (request_snapshot codec sha256 setup fetch)
  unfolding request_snapshot requested
  request_snapshot-Keeps fetch s =
      let s1 = record s { snapshot_attempts = suc s.snapshot_attempts } in
      after-Keeps R rules s (fetch_page codec sha256 setup fetch s1) _
        (rules.chain s s1 (fetch_page codec sha256 setup fetch s1).1 (rules.fields s s1 refl refl)
          (fetch_page-Keeps fetch s1))
        (λ u t. rules.fields t (requested t).1 refl refl)

  resnapshot-Keeps : (fetch : Fetch) → Keeps R (resnapshot codec sha256 setup fetch)
  unfolding resnapshot
  resnapshot-Keeps fetch s =
      let without : SupervisorAction Bool = lift (ok false) in
      if-Keeps R rules s (not s.snapshot_required || not setup.resnapshots) _ _ (same R rules s) (
        if-Keeps R rules s (leb setup.limits.max_pages s.snapshot_attempts) _ _ (same R rules s) (
          rules.lease backfill 1 setup.source_payload_bytes without
            (paced fetch.now (request_snapshot codec sha256 setup fetch)) (λ t. same R rules t)
            (paced-Keeps R rules fetch.now (request_snapshot codec sha256 setup fetch)
              (request_snapshot-Keeps fetch))
            s))

  repair_with-Keeps :
      (fetch : Fetch) (interval : Option ℕ) (history : Option History)
      → Keeps R (repair_with codec sha256 setup fetch interval history)
  unfolding repair_with
  repair_with-Keeps fetch (some interval) (some history) s =
      let s1 = run_events codec sha256 setup fetch.at_start s in
      let found = pending_span 0 s1.ledger.snapshot.spans in
      if-Keeps R rules s (is_candle s.ledger.stream.family) _ _
        (rules.chain s s1 (repair_pending codec sha256 setup fetch interval history found s1).1
          (run_events-Keeps R rules codec sha256 setup fetch.at_start s)
          (repair_pending-Keeps fetch interval history found s1))
        (same R rules s)
  repair_with-Keeps fetch none _ s = same R rules s
  repair_with-Keeps fetch (some interval) none s = same R rules s

  pub repair_once-Keeps : (fetch : Fetch) → Keeps R (repair_once codec sha256 setup fetch)
  unfolding repair_once
  repair_once-Keeps fetch s =
      if-Keeps R rules s s.closed (ok false, s) _ (same R rules s)
        (if-Keeps R rules s (is_book s.ledger.stream.family) _ _ (resnapshot-Keeps fetch s)
          (repair_with-Keeps fetch setup.interval_ns setup.history s))

  -- what every task keeps
  pub run_tasks-Keeps :
      (tasks : List Task) (s : Supervisor) → R s (run_tasks codec sha256 setup tasks s)
  unfolding run_tasks
  run_tasks-Keeps [] s = same R rules s
  run_tasks-Keeps (live_call e ∷ tasks) s =
      let s1 = run_event codec sha256 setup e s in
      rules.chain s s1 (run_tasks codec sha256 setup tasks s1)
        (run_event-Keeps R rules codec sha256 setup e s) (run_tasks-Keeps tasks s1)
  run_tasks-Keeps (repair_round fetch ∷ tasks) s =
      let s1 = (repair_once codec sha256 setup fetch s).1 in
      rules.chain s s1 (run_tasks codec sha256 setup tasks s1) (repair_once-Keeps fetch s)
        (run_tasks-Keeps tasks s1)
