-- ===== src/Recovery/Coverage/Observe/Candles.antt =====
-- src/scryntic/recovery/coverage.py: no hole between two candles goes unrecorded.
use scryntic.Prelude.{
  ◌≡◌, ◌∙◌, true, false, Option, none, some, List, [], ◌∷◌, arith, ok, refl, ap, inl, inr, Any,
  Any-append_right, any, Bool-cases, subst, sym, Option-cases, ◌⊎◌,
}
use scryntic.Prelude.Int.{ℤ, pos, ◌+ℤ◌, ◌≤ℤ◌, ◌<ℤ◌, +ℤ_parts}
use scryntic.Domain.Raw.{RawRecord}
use scryntic.Domain.Time.{ClockSample}
use scryntic.Recovery.Coverage.Contracts.{CoverageSpan, CoverageSnapshot, CandleEvidence}
use scryntic.Recovery.Coverage.Ledger.{Codec, Ledger, lost_span}
use scryntic.Recovery.Coverage.Query.Sound.{Covers}
use scryntic.Recovery.Coverage.Observe.{
  missing_start, is_gap, spans_gap, candle_gap, close_uncertain, settled, finalize_candle,
  settle_candle, observed_candle,
}
use scryntic.Recovery.Coverage.Observe.Gaps.{after-ok, loss-spans}

spans_gap-Covers :
    (missing start t : ℤ) (s : CoverageSpan)
    → spans_gap missing start s ≡ true
    → missing ≤ℤ t
    → t <ℤ start
    → Covers t s
unfolding spans_gap
spans_gap-Covers missing start t s h low high = elim (Option-cases s.end_ns) [
  | inl e ↦ absurd (ground arith)
  | inr (end, e) ↦ (end, e, ground arith, ground arith)
]

any-Covers :
    (missing start t : ℤ) (spans : List CoverageSpan)
    → any (spans_gap missing start) spans ≡ true
    → missing ≤ℤ t
    → t <ℤ start
    → Any (Covers t) spans
any-Covers missing start t [] h low high = absurd (ground arith)
any-Covers missing start t (s ∷ spans) h low high = elim (Bool-cases (spans_gap missing start s)) [
  | inl here ↦ inl (spans_gap-Covers missing start t s here low high)
  | inr there ↦ inr (any-Covers missing start t spans (rw there at h) low high)
]

no_gap-Covers :
    (state : CoverageSnapshot) (last t : ℤ) (evidence : CandleEvidence)
    → is_gap state last evidence ≡ false
    → missing_start state last evidence ≤ℤ t
    → t <ℤ evidence.start_ns
    → Any (Covers t) state.spans
unfolding is_gap
no_gap-Covers state last t evidence h low high =
    any-Covers (missing_start state last evidence) evidence.start_ns t state.spans (ground arith)
      low high

candle_gap-Covers :
    (codec : Codec) (last t : ℤ) (evidence : CandleEvidence) (sample : ClockSample) (l : Ledger)
    {u : Unit {0}}
    → (candle_gap codec (some last) evidence sample l).0 ≡ ok u
    → missing_start l.snapshot last evidence ≤ℤ t
    → t <ℤ evidence.start_ns
    → Any (Covers t) (candle_gap codec (some last) evidence sample l).1.snapshot.spans
unfolding candle_gap
candle_gap-Covers codec last t evidence sample l h low high =
    elim (Bool-cases (is_gap l.snapshot last evidence)) [
      | inr none_missing ↦
          rw (none_missing, candle_gap)
            (no_gap-Covers l.snapshot last t evidence none_missing low high)
      | inl gap ↦
          let added =
            loss-spans codec (missing_start l.snapshot last evidence) (some evidence.start_ns)
              "candle-gap" sample none none l (rw gap at h) in
          rw (gap, candle_gap)
            (subst (Any (Covers t)) (sym added.0) (
              Any-append_right (Covers t) l.snapshot.spans _
                (inl (evidence.start_ns, unfold lost_span in refl, unfold lost_span in low, high))))
    ]

candle_gap-Covers_after :
    (codec : Codec) (o : Option ℤ) (last t : ℤ) (evidence : CandleEvidence) (sample : ClockSample)
    (l : Ledger) {u : Unit {0}}
    → o ≡ some last
    → (candle_gap codec o evidence sample l).0 ≡ ok u
    → missing_start l.snapshot last evidence ≤ℤ t
    → t <ℤ evidence.start_ns
    → Any (Covers t) (candle_gap codec o evidence sample l).1.snapshot.spans
candle_gap-Covers_after codec none last t evidence sample l e h low high = absurd (cc)
candle_gap-Covers_after codec (some last') last t evidence sample l e h low high =
    let same : last ≡ last' = cc in
    candle_gap-Covers codec last' t evidence sample l h
      (subst (λ z. missing_start l.snapshot z evidence ≤ℤ t) same low) high

settle_candle-spans :
    (last : Option ℤ) (evidence : CandleEvidence) (l : Ledger)
    → (settle_candle last evidence l).1.snapshot.spans ≡ l.snapshot.spans
unfolding settle_candle settled finalize_candle
settle_candle-spans last evidence l = ground arith

-- a time from where the next candle was due is at or after `missing_start`
due-missing_start :
    (state : CoverageSnapshot) (last t : ℤ) (evidence : CandleEvidence)
    → (last +ℤ pos evidence.interval_ns ≤ℤ t) ⊎ ((state.checkpoint_ns ≤ℤ last) × (last ≤ℤ t))
    → missing_start state last evidence ≤ℤ t
due-missing_start state last t evidence (inl late) =
    ground (arith, +ℤ_parts last (pos evidence.interval_ns))
due-missing_start state last t evidence (inr (open_candle, since)) = ground arith

-- When a candle is observed after one that started at `last`, and the call returns: every time
-- before this candle's start lies in a closed span that the ledger has recorded, if it is at least
-- one interval after `last`; or if it is at or after `last`, where the checkpoint is not after
-- `last`.
pub observed_candle-Covers :
    (codec : Codec) (raw : RawRecord) (evidence : CandleEvidence) (l : Ledger) (last t : ℤ)
    {u : Unit {0}}
    → l.snapshot.last_start_ns ≡ some last
    → (observed_candle codec raw evidence l).0 ≡ ok u
    → (last +ℤ pos evidence.interval_ns ≤ℤ t) ⊎ ((l.snapshot.checkpoint_ns ≤ℤ last) × (last ≤ℤ t))
    → t <ℤ evidence.start_ns
    → Any (Covers t) (observed_candle codec raw evidence l).1.snapshot.spans
unfolding observed_candle close_uncertain
observed_candle-Covers codec raw evidence l last t known h due high =
    let low = due-missing_start l.snapshot last t evidence due in
    let (a, noted, settles, whole) =
      after-ok
        (candle_gap codec l.snapshot.last_start_ns evidence raw.envelope.receipt
          (close_uncertain evidence l))
        _ h in
    subst (Any (Covers t))
      (sym (
        ap (λ r. r.1.snapshot.spans) whole
        ∙ settle_candle-spans l.snapshot.last_start_ns evidence _))
      (candle_gap-Covers_after codec l.snapshot.last_start_ns last t evidence _
        (close_uncertain evidence l) known noted low high)
