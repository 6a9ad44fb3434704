-- ===== src/Recovery/Coverage/Ledger.antt =====
-- src/scryntic/recovery/coverage.py: the state of `CoverageLedger`, its opening, `_save`, `begin`,
-- `finish` and `loss`. `Codec` stands for Python's `json.dumps` and `json.loads` on the document
-- that the ledger stores; the document here has the fields of the dataclasses that it is made of.
pub mod Extends
use scryntic.Prelude.{
  ℕ, String, Bool, true, false, not, ◌&&◌, ◌||◌, Option, none, some, List, [], ◌∷◌, ◌++◌, ◌-◌, ltb,
  leb, ◌==◌, length, if◌then◌else◌, Result, ok, err, Error, ingestion_error, ◌≡◌, all, refuse,
}
use scryntic.Prelude.Action.{Action, ◌>>=◌, ◌>>◌, lift}
use scryntic.Prelude.Int.{ℤ, pos, min_ℤ}
use scryntic.Prelude.Text.{str_eq}
use scryntic.Domain.Time.{ClockSample, time_quality, clock_sample}
use scryntic.Domain.Validation.{digest}
use scryntic.Ingestion.Metadata.{Bytes, Spool, recovery_get, recovery_put}
use scryntic.Recovery.Coverage.Contracts.{
  RecoveryStream, CoverageSpan, CoverageSnapshot, Status, pending, unknown, unrecoverable, Family,
  candle, trade, liquidation, book, backfill, Recovery, baseline, checked_span, same_stream,
  span_limit, repair_candles,
}

pub record Document : Type 0 where
  pub version : ℕ
  pub stream : RecoveryStream
  pub state : CoverageSnapshot

pub record Codec : Type 0 where
  pub dumps : Document → Bytes
  pub loads : Bytes → Option Document

-- What the ledger relies on in `json`: a document that was dumped is loaded again as it was.
abbrev pub Restores : Codec → Document → Type 0
Restores codec d = codec.loads (codec.dumps d) ≡ some d

pub record Ledger : Type 0 where
  pub spool : Spool
  pub stream : RecoveryStream
  pub stored : Option Bytes
  pub failed : Bool
  pub snapshot : CoverageSnapshot

abbrev pub LedgerAction : Type 0 → Type 0
LedgerAction A = Action Ledger A

unfoldable pub returns {ℓ} : {A : Type ℓ} → Result A → Bool
returns (ok a) = true
returns (err e) = false

-- `digest` of a final candle's fingerprint
unfoldable pub is_digest : ℤ × String → Bool
is_digest (start, fingerprint) = returns (digest fingerprint)

-- the constructors that `_clock` calls
unfoldable pub is_clock : ClockSample → Bool
is_clock sample =
    let q = sample.quality in
    returns (time_quality q.epoch q.status q.offset_ns q.uncertainty_ns q.evidence_age_ns)
    && returns
        (clock_sample sample.wall_time_ns sample.monotonic_ns sample.session_id sample.quality)

-- a loaded span: `_clock` on its sample, and its own checks
unfoldable pub is_valid_span : CoverageSpan → Bool
is_valid_span span = is_clock span.detected && returns (checked_span span)

-- a loaded snapshot's sample
unfoldable pub is_valid_evidence : Option ℤ → Option ClockSample → Bool
is_valid_evidence since (some sample) = is_clock sample
is_valid_evidence none none = true
is_valid_evidence (some since) none = false

-- the constructors that `__init__` calls on a loaded document
unfoldable pub is_valid_snapshot : CoverageSnapshot → Bool
is_valid_snapshot s =
    all is_valid_span s.spans
    && (leb (length s.spans) span_limit
        && (leb (length s.final_candles) repair_candles
            && (all is_digest s.final_candles
                && is_valid_evidence s.unknown_since_ns s.unknown_detected)))

invalid_metadata : Result Ledger
invalid_metadata = err (ingestion_error "Invalid recovery metadata")

restart_span : CoverageSnapshot → ClockSample → CoverageSpan
restart_span state sample = record {
  start_ns = state.checkpoint_ns;
  end_ns = none;
  status = unknown;
  reason = if state.active then "restart-unverified" else "resume-unverified";
  detected = sample;
  checkpoint_offset = state.raw_offset;
  first_sequence = none;
  last_sequence = none;
  cursor = none;
  repaired = [];
  pages = pos 0;
  attempts = pos 0;
}

earlier : Option ℤ → ℤ → ℤ
earlier none checkpoint = checkpoint
earlier (some since) checkpoint = min_ℤ checkpoint since

-- what `begin` makes of the snapshot of a ledger that was stored before
unfoldable pub resumed : CoverageSnapshot → ClockSample → CoverageSnapshot
unfolding restart_span earlier
resumed state sample =
    if ltb (length state.spans) (span_limit - 1)
    then record state { spans = state.spans ++ restart_span state sample ∷ [] }
    else record state {
      unknown_since_ns = some (earlier state.unknown_since_ns state.checkpoint_ns);
      unknown_detected = some sample;
    }

-- the snapshot that `begin` starts from
unfoldable pub started : Option Bytes → CoverageSnapshot → ClockSample → CoverageSnapshot
started none state sample = state
started (some value) state sample = resumed state sample

-- the status that `loss` gives a span, by the family of the stream
unfoldable pub loss_status : Family → Recovery → Option ℤ → Status
loss_status candle backfill (some end) = pending
loss_status trade _ _ = unrecoverable
loss_status liquidation _ _ = unrecoverable
loss_status book _ _ = unrecoverable
loss_status _ _ _ = unknown

-- the span that `loss` adds
unfoldable pub lost_span :
    Ledger → ℤ → Option ℤ → String → ClockSample → Option ℤ → Option ℤ → CoverageSpan
lost_span l start end reason sample first last = record {
  start_ns = start;
  end_ns = end;
  status = loss_status l.stream.family l.stream.recovery end;
  reason = reason;
  detected = sample;
  checkpoint_offset = l.snapshot.raw_offset;
  first_sequence = first;
  last_sequence = last;
  cursor = none;
  repaired = [];
  pages = pos 0;
  attempts = pos 0;
}

module _ (codec : Codec) where
  loaded : Spool → RecoveryStream → Bytes → Option Document → Result Ledger
  unfolding invalid_metadata
  loaded spool stream value none = invalid_metadata
  loaded spool stream value (some d) =
      if d.version == 1 && (same_stream d.stream stream && is_valid_snapshot d.state)
      then ok (record {
        spool = spool;
        stream = stream;
        stored = some value;
        failed = false;
        snapshot = d.state;
      })
      else invalid_metadata

  -- `CoverageLedger.__init__`
  unfoldable pub open_ledger : Spool → RecoveryStream → ℤ → Result Ledger
  unfolding loaded
  open_ledger spool stream baseline_ns = elim (recovery_get spool stream.key) [
    | err e ↦ err e
    | ok none ↦ ok (record {
      spool = spool;
      stream = stream;
      stored = none;
      failed = false;
      snapshot = baseline baseline_ns;
    })
    | ok (some value) ↦ loaded spool stream value (codec.loads value)
  ]

  abbrev pub document : Ledger → CoverageSnapshot → Document
  document l s = record { version = 1; stream = l.stream; state = s }

  -- the `try` block of `_save`
  write : Ledger → Bytes → Bool → Result Spool
  write l value restart =
      if ltb 61_440 (length value) && not restart
      then err (ingestion_error "Recovery metadata headroom reached")
      else recovery_put l.spool l.stream.key value l.stored

  unfoldable pub save : CoverageSnapshot → Bool → LedgerAction (Unit {0})
  unfolding write
  save snapshot restart l =
      let value = codec.dumps (document l snapshot) in
      let saved : Result (Unit {0}) × Ledger = elim (write l value restart) [
        | ok spool ↦ (ok tt, record l { spool = spool; stored = some value; snapshot = snapshot })
        | err e ↦
            (err e, record l { failed = true; snapshot = record l.snapshot { book_valid = false } })
      ] in
      if l.failed
      then (err (ingestion_error "Recovery ledger failed; restart required"), l)
      else saved

  unfoldable pub begin : ClockSample → LedgerAction (Unit {0})
  begin sample l =
      let state = started l.stored l.snapshot sample in
      save (record state { active = true; book_valid = false; last_sequence = none }) true l

  unfoldable pub finish : LedgerAction (Unit {0})
  finish l = save (record l.snapshot { active = false; book_valid = false }) false l

  unfoldable pub append_span : CoverageSpan → LedgerAction (Unit {0})
  append_span span l = save (record l.snapshot { spans = l.snapshot.spans ++ span ∷ [] }) false l

  unfoldable pub loss :
      ℤ → Option ℤ → String → ClockSample → Option ℤ → Option ℤ → LedgerAction (Unit {0})
  loss start end reason sample first last l =
      let span = lost_span l start end reason sample first last in
      let method = do
        lift (checked_span span)
        lift (
            refuse (leb (span_limit - 1) (length l.snapshot.spans))
              (ingestion_error "Coverage history quota reached"))
        λ s. append_span span (record s { snapshot = record s.snapshot { book_valid = false } })
      in method l
