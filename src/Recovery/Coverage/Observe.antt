-- ===== src/Recovery/Coverage/Observe.antt =====
-- src/scryntic/recovery/coverage.py: `observed` and what it calls.
pub mod Checkpoint
pub mod Gaps
pub mod Candles
use scryntic.Prelude.{
  ℕ, String, Bool, true, false, not, ◌&&◌, ◌||◌, Option, none, some, List, [], ◌∷◌, map, any, keep,
  if◌then◌else◌, Result, ok, err, ingestion_error, value_error, require, length,
}
use scryntic.Prelude.Action.{◌>>=◌, ◌>>◌, lift}
use scryntic.Prelude.Int.{ℤ, pos, ◌+ℤ◌, ◌-ℤ◌, ltb_ℤ, leb_ℤ, eq_ℤ, max_ℤ, min_ℤ}
use scryntic.Prelude.Sort.{sort_by, take_last}
use scryntic.Prelude.Text.{str_eq}
use scryntic.Domain.Raw.{RawRecord}
use scryntic.Domain.Time.{ClockSample}
use scryntic.Recovery.Coverage.Contracts.{
  RecoveryStream, CoverageSpan, CoverageSnapshot, CandleEvidence, Status, complete, pending,
  unknown, Family, trade, liquidation, backfill, Recovery, same_status, repair_candles, matches,
}
use scryntic.Recovery.Coverage.Ledger.{Codec, Ledger, LedgerAction, save, loss}

-- `value or 0`
abbrev pub or_zero : Option ℤ → ℤ
or_zero none = pos 0
or_zero (some z) = z

-- `family in (TRADE, LIQUIDATION)`
abbrev pub has_sequence_gaps : Family → Bool
has_sequence_gaps trade = true
has_sequence_gaps liquidation = true
has_sequence_gaps _ = false

-- `previous is not None and sequence > previous + 1`
unfoldable pub skips : Option ℤ → ℤ → Bool
skips none sequence = false
skips (some previous) sequence = ltb_ℤ (previous +ℤ pos 1) sequence

abbrev pub set_snapshot : CoverageSnapshot → Ledger → Ledger
set_snapshot snapshot l = record l { snapshot = snapshot }

-- A dictionary from starts to fingerprints, in insertion order.
unfoldable pub dict_get : ℤ → List (ℤ × String) → Option String
dict_get start [] = none
dict_get start ((k, v) ∷ d) = if eq_ℤ k start then some v else dict_get start d

unfoldable pub dict_set : ℤ → String → List (ℤ × String) → List (ℤ × String)
dict_set start sha [] = (start, sha) ∷ []
dict_set start sha ((k, v) ∷ d) =
    if eq_ℤ k start then (k, sha) ∷ d else (k, v) ∷ dict_set start sha d

-- `known.update(items)`
unfoldable pub dict_update : List (ℤ × String) → List (ℤ × String) → List (ℤ × String)
dict_update known [] = known
dict_update known ((k, v) ∷ items) = dict_update (dict_set k v known) items

-- `tuple(sorted(known.items())[-_REPAIR_CANDLES:])`
unfoldable pub latest_candles : List (ℤ × String) → List (ℤ × String)
latest_candles known = take_last repair_candles (sort_by (λ item. item.0) known)

-- The span that `_close_uncertain` puts in the place of a span.
unfoldable pub close_span : Recovery → ℤ → CoverageSpan → CoverageSpan
close_span recovery start span = elim span.end_ns [
  | some end ↦ span
  | none ↦
      if ltb_ℤ span.start_ns start
      then record span {
        end_ns = some start;
        status = elim recovery [ backfill ↦ pending | _ ↦ unknown ];
      }
      else span
]

unfoldable pub close_uncertain : CandleEvidence → Ledger → Ledger
unfolding close_span
close_uncertain evidence l =
    set_snapshot
      (record l.snapshot {
        spans = map (close_span l.stream.recovery evidence.start_ns) l.snapshot.spans;
      })
      l

-- `span.start_ns <= missing_start and span.end_ns is not None and span.end_ns >= candle.start_ns`
spans_gap : ℤ → ℤ → CoverageSpan → Bool
spans_gap missing start span = elim span.end_ns [
  | none ↦ false
  | some end ↦ leb_ℤ span.start_ns missing && leb_ℤ start end
]

abbrev pub missing_start : CoverageSnapshot → ℤ → CandleEvidence → ℤ
missing_start state last evidence =
    if leb_ℤ state.checkpoint_ns last then last else last +ℤ pos evidence.interval_ns

-- `candle.start_ns > missing_start and not covered`
unfoldable pub is_gap : CoverageSnapshot → ℤ → CandleEvidence → Bool
unfolding spans_gap
is_gap state last evidence =
    let missing = missing_start state last evidence in
    ltb_ℤ missing evidence.start_ns && not (any (spans_gap missing evidence.start_ns) state.spans)

is_unresolved : CoverageSpan → Bool
is_unresolved span = not (same_status span.status complete)

least_start : ℤ → List CoverageSpan → ℤ
least_start boundary [] = boundary
least_start boundary (span ∷ spans) = least_start (min_ℤ boundary span.start_ns) spans

-- "boundary" after the unresolved spans are looked at
unfoldable pub resolved_boundary : CoverageSnapshot → CandleEvidence → ℤ
unfolding is_unresolved least_start
resolved_boundary state evidence =
    least_start (evidence.start_ns +ℤ pos evidence.interval_ns) (keep is_unresolved state.spans)

conflicts : Option String → String → Bool
conflicts none sha = false
conflicts (some existing) sha = not (str_eq existing sha)

-- the lines of `_observed_candle` on the fingerprint of a final candle
remember_candle : CoverageSnapshot → ℤ → Option String → Result CoverageSnapshot
unfolding conflicts
remember_candle state start none = ok state
remember_candle state start (some sha) =
    let known = dict_update [] state.final_candles in
    if conflicts (dict_get start known) sha
    then err (ingestion_error "Conflicting finalized candle evidence")
    else ok (record state { final_candles = latest_candles (dict_set start sha known) })

-- what a final candle makes of the snapshot
unfoldable pub finalize_candle : CoverageSnapshot → CandleEvidence → Result CoverageSnapshot
unfolding remember_candle
finalize_candle state evidence =
    if evidence.finalized
    then remember_candle
        (record state {
          checkpoint_ns = max_ℤ state.checkpoint_ns (resolved_boundary state evidence);
        })
        evidence.start_ns evidence.market_sha256
    else ok state

-- `self.snapshot = state`, unless `state` raised
unfoldable pub settled : Result CoverageSnapshot → LedgerAction (Unit {0})
settled (ok state) l = (ok tt, set_snapshot state l)
settled (err e) l = (err e, l)

-- `state` of `_observed_candle` before the candle's finality is looked at
abbrev pub with_last_start : CoverageSnapshot → Option ℤ → CandleEvidence → CoverageSnapshot
with_last_start state last evidence = record state {
  last_start_ns = some (max_ℤ evidence.start_ns (or_zero last));
}

-- the lines of `_observed_candle` after the gap
unfoldable pub settle_candle : Option ℤ → CandleEvidence → LedgerAction (Unit {0})
settle_candle last evidence l =
    settled (finalize_candle (with_last_start l.snapshot last evidence) evidence) l

-- the last line of `_observed_sequence`
unfoldable pub note_sequence : Option ℤ → ℤ → LedgerAction (Unit {0})
note_sequence previous sequence l = (
  ok tt,
  set_snapshot (record l.snapshot { last_sequence = some (max_ℤ sequence (or_zero previous)) }) l,
)

module _ (codec : Codec) where
  -- `_observed_sequence` of a trade or liquidation stream, for a known sequence
  unfoldable pub sequence_gap : ℤ → ClockSample → LedgerAction (Unit {0})
  sequence_gap sequence receipt l =
      let previous = l.snapshot.last_sequence in
      if skips previous sequence
      then loss codec l.snapshot.checkpoint_ns none "trade-sequence-gap" receipt
          (some (or_zero previous +ℤ pos 1)) (some (sequence -ℤ pos 1)) l
      else (ok tt, l)

  unfoldable pub observed_sequence : RawRecord → LedgerAction (Unit {0})
  observed_sequence raw l = elim raw.envelope.source_sequence [
    | none ↦ (ok tt, l)
    | some n ↦
        if has_sequence_gaps l.stream.family
        then (sequence_gap (pos n) raw.envelope.receipt
              >> note_sequence l.snapshot.last_sequence (pos n))
            l
        else (ok tt, l)
  ]

  unfoldable pub candle_gap : Option ℤ → CandleEvidence → ClockSample → LedgerAction (Unit {0})
  candle_gap none evidence sample l = (ok tt, l)
  candle_gap (some last) evidence sample l =
      if is_gap l.snapshot last evidence
      then loss codec (missing_start l.snapshot last evidence) (some evidence.start_ns) "candle-gap"
          sample none none l
      else (ok tt, l)

  unfoldable pub observed_candle : RawRecord → CandleEvidence → LedgerAction (Unit {0})
  observed_candle raw evidence l =
      (candle_gap l.snapshot.last_start_ns evidence raw.envelope.receipt
          >> settle_candle l.snapshot.last_start_ns evidence)
        (close_uncertain evidence l)

  unfoldable pub observe_evidence : RawRecord → Option CandleEvidence → LedgerAction (Unit {0})
  observe_evidence raw none l = (ok tt, l)
  observe_evidence raw (some evidence) l = observed_candle raw evidence l

  -- the last statement of `observed`
  unfoldable pub save_offset : RawRecord → LedgerAction (Unit {0})
  save_offset raw l =
      save codec
        (record l.snapshot { raw_offset = max_ℤ l.snapshot.raw_offset (pos raw.identity.offset) })
        false l

  unfoldable pub observed : RawRecord → Option CandleEvidence → LedgerAction (Unit {0})
  observed raw evidence l =
      let method = do
        lift (
            require (matches l.stream raw.envelope)
              (value_error "Recovery stream identity mismatch"))
        observed_sequence raw
        observe_evidence raw evidence
        save_offset raw
      in method l
