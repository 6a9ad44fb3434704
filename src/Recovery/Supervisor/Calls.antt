-- ===== src/Recovery/Supervisor/Calls.antt =====
-- src/scryntic/recovery/supervisor.py: what the live calls keep, by the rules of a relation.
use scryntic.Prelude.{
  ℕ, suc, String, true, false, ◌||◌, Option, none, some, List, length, Result, ok, err, refl, leb,
  intake_full, ingestion_error,
}
use scryntic.Prelude.Action.{◌>>◌, lift}
use scryntic.Domain.Raw.{RawEnvelope, RawRecord}
use scryntic.Domain.Time.{ClockSample}
use scryntic.Ingestion.Intake.{World}
use scryntic.Recovery.Budget.{live}
use scryntic.Recovery.Coverage.Contracts.{CandleEvidence, BookEvidence, matches}
use scryntic.Recovery.Coverage.Ledger.{Codec, loss}
use scryntic.Recovery.Coverage.Observe.{observed}
use scryntic.Recovery.Coverage.Book.{book_observed}
use scryntic.Recovery.Coverage.Ledger.Extends.{loss-Extends}
use scryntic.Recovery.Coverage.Calls.Keeps.{observed-Extends, book_observed-Extends}
use scryntic.Recovery.Supervisor.{
  degraded, Setup, Supervisor, on_ledger, transport_loss, reject, observe_book, observe, overflow,
  accepted_as, admit, ingest, settle, note_book, is_book, parsed_candle, parsed_book, is_duplicate,
  stop_intake, waited, spool_accept,
}
use scryntic.Recovery.Supervisor.Repair.{
  Event, Events, ingested, lost, stopped, nothing, then_next, run_event, run_events,
}
use scryntic.Recovery.Supervisor.Rules.{
  Keeps, Rules, same, after-Keeps, >>=-Keeps, waited-Keeps, if-Keeps,
}

module _ (R : Supervisor → Supervisor → Type 0) (rules : Rules R) (codec : Codec)
    (sha256 : List ℕ → String) (setup : Setup) where
  transport_loss-Keeps :
      (reason : String) (detected : ClockSample)
      → Keeps R (transport_loss codec sha256 setup reason detected)
  unfolding transport_loss
  transport_loss-Keeps reason detected s =
      let marked = record s {
        state = degraded;
        snapshot_required = is_book s.ledger.stream.family || s.snapshot_required;
      } in
      let m = loss codec s.ledger.snapshot.checkpoint_ns none reason detected none none in
      rules.chain s marked (on_ledger m marked).1 (rules.fields s marked refl refl) (
        rules.tell m
          (loss-Extends codec s.ledger.snapshot.checkpoint_ns none reason detected none none)
          marked)

  reject-Keeps : (receipt : ClockSample) → Keeps R (reject codec sha256 setup receipt)
  unfolding reject
  reject-Keeps receipt s =
      let counted = record s { rejections = suc s.rejections } in
      let m = loss codec s.ledger.snapshot.checkpoint_ns none "malformed" receipt none none in
      let told =
        rules.tell m
          (loss-Extends codec s.ledger.snapshot.checkpoint_ns none "malformed" receipt none none)
          counted in
      after-Keeps R rules s (on_ledger m counted) _
        (rules.chain s counted (on_ledger m counted).1 (rules.fields s counted refl refl) told)
        (λ u t.
          if-Keeps R rules t (leb setup.limits.max_rejections t.rejections)
            (err (ingestion_error "Recovery rejection quota reached"), t) (ok tt, t)
            (same R rules t) (same R rules t))

  observe_book-Keeps :
      (raw : RawRecord) (evidence : Option CandleEvidence) (update : Option BookEvidence)
      → Keeps R (observe_book codec sha256 setup raw evidence update)
  unfolding observe_book note_book
  observe_book-Keeps raw evidence none =
      rules.tell (observed codec raw evidence) (observed-Extends codec raw evidence)
  observe_book-Keeps raw evidence (some b) =
      >>=-Keeps R rules (on_ledger (book_observed codec raw b)) (note_book b)
        (rules.tell (book_observed codec raw b) (book_observed-Extends codec raw b))
        (λ valid s. rules.fields s (note_book b valid s).1 refl refl)

  observe-Keeps : (raw : RawRecord) → Keeps R (observe codec sha256 setup raw)
  unfolding observe
  observe-Keeps raw s =
      if-Keeps R rules s _ _ _ (reject-Keeps raw.envelope.receipt s)
        (observe_book-Keeps raw (parsed_candle setup raw.envelope) (parsed_book setup raw) s)

  settle-Keeps : Keeps R settle
  unfolding settle
  settle-Keeps s = rules.fields s (settle s).1 refl refl

  -- what goes on during the waits keeps the relation too
  module _ (w : World) (at_spool at_lock : Supervisor → Supervisor)
      (spool_kept : (s : Supervisor) → R s (at_spool s))
      (lock_kept : (s : Supervisor) → R s (at_lock s)) (envelope : RawEnvelope) where
    overflow-Keeps : Keeps R (overflow codec sha256 setup at_lock envelope)
    unfolding overflow
    overflow-Keeps =
        let told = transport_loss codec sha256 setup "overflow" envelope.receipt in
        >>=-Keeps R rules (waited at_lock told) (λ u. lift (ok false))
          (waited-Keeps R rules at_lock told lock_kept
            (transport_loss-Keeps "overflow" envelope.receipt))
          (λ u s. same R rules s)

    accepted_as-Keeps :
        (answer : Result RawRecord)
        → Keeps R (accepted_as codec sha256 setup at_lock envelope answer)
    unfolding accepted_as
    accepted_as-Keeps (err intake_full) s = overflow-Keeps s
    accepted_as-Keeps (err e) s = same R rules s
    accepted_as-Keeps (ok raw) s =
        let observing = waited at_lock (observe codec sha256 setup raw) in
        let observed_row = observing >> settle in
        if-Keeps R rules s (matches s.ledger.stream envelope) (observed_row s)
          (err (ingestion_error "Source envelope identity mismatch"), s)
          (>>=-Keeps R rules observing (λ u. settle)
            (waited-Keeps R rules at_lock (observe codec sha256 setup raw) lock_kept
              (observe-Keeps raw))
            (λ u. settle-Keeps) s)
          (same R rules s)

    pub spool_accept-Keeps :
        (s : Supervisor) → R s (spool_accept codec sha256 setup w at_spool envelope s).1
    unfolding spool_accept
    spool_accept-Keeps s =
        let s1 = at_spool s in
        let s2 = (spool_accept codec sha256 setup w at_spool envelope s).1 in
        rules.chain s s1 s2 (spool_kept s) (rules.fields s1 s2 refl refl)

    admit-Keeps : Keeps R (admit codec sha256 setup w at_spool at_lock envelope)
    unfolding admit
    admit-Keeps s =
        let (answer, s1) = spool_accept codec sha256 setup w at_spool envelope s in
        if-Keeps R rules s (is_duplicate setup s.ledger envelope) (ok true, s)
          (accepted_as codec sha256 setup at_lock envelope answer s1) (same R rules s)
          (rules.chain s s1 (accepted_as codec sha256 setup at_lock envelope answer s1).1
            (spool_accept-Keeps s) (accepted_as-Keeps answer s1))

    pub ingest-Keeps : Keeps R (ingest codec sha256 setup w at_spool at_lock envelope)
    unfolding ingest
    ingest-Keeps s =
        if-Keeps R rules s s.closed (ok false, s) _ (same R rules s)
          (if-Keeps R rules s setup.reporting _ _ (admit-Keeps s) (
            rules.lease live 1 (length envelope.payload)
              (overflow codec sha256 setup at_lock envelope)
              (admit codec sha256 setup w at_spool at_lock envelope) overflow-Keeps admit-Keeps s))

  mutual
    unfolding run_event run_events stop_intake

    pub run_event-Keeps : (e : Event) (s : Supervisor) → R s (run_event codec sha256 setup e s)
    run_event-Keeps (ingested w envelope at_spool at_lock) s =
        ingest-Keeps w (run_events codec sha256 setup at_spool)
          (run_events codec sha256 setup at_lock) (run_events-Keeps at_spool)
          (run_events-Keeps at_lock) envelope s
    run_event-Keeps (lost reason detected) s = transport_loss-Keeps reason detected s
    run_event-Keeps stopped s = rules.fields s (stop_intake s) refl refl

    pub run_events-Keeps : (es : Events) (s : Supervisor) → R s (run_events codec sha256 setup es s)
    run_events-Keeps nothing s = same R rules s
    run_events-Keeps (then_next e es) s =
        let s1 = run_event codec sha256 setup e s in
        rules.chain s s1 (run_events codec sha256 setup es s1) (run_event-Keeps e s)
          (run_events-Keeps es s1)
