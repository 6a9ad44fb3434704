-- ===== src/Recovery/Coverage/Calls/Keeps.antt =====
-- src/scryntic/recovery/coverage.py: what each method keeps of a ledger.
use scryntic.Prelude.{
  ℕ, ◌≡◌, Bool, true, false, Option, none, some, List, arith, length, Result, ok, err,
  if◌then◌else◌, refl, ap, length-set, length-map, inl, inr, String, set, Option-cases, ◌∙◌, map,
  [], ◌∷◌,
}
use scryntic.Prelude.Int.{ℤ, pos}
use scryntic.Domain.Raw.{RawRecord}
use scryntic.Domain.Time.{ClockSample}
use scryntic.Ingestion.Metadata.{Bytes}
use scryntic.Recovery.Coverage.Contracts.{
  CoverageSpan, CoverageSnapshot, CandleEvidence, BookEvidence, Recovery,
}
use scryntic.Recovery.Coverage.Ledger.{Codec, Ledger, save}
use scryntic.Recovery.Coverage.Ledger.Extends.{
  Extends, Extends-refl, Extends-trans, Keeps, after-Extends, save-Extends, loss-Extends, cause,
}
use scryntic.Recovery.Coverage.Observe.{
  set_snapshot, settled, with_last_start, close_span, close_uncertain, settle_candle, note_sequence,
  sequence_gap, finalize_candle, observed_sequence, candle_gap, observed_candle, observe_evidence,
  save_offset, observed, has_sequence_gaps,
}
use scryntic.Recovery.Coverage.Repair.{repair_page, exhaust, repair_attempt}
use scryntic.Recovery.Coverage.Book.{resnapshot, follow, delta_after, book_delta, book_observed}

set_snapshot-Extends :
    (snapshot : CoverageSnapshot) (l : Ledger)
    → length snapshot.spans ≡ length l.snapshot.spans
    → map cause snapshot.spans ≡ map cause l.snapshot.spans
    → snapshot.book_valid ≡ l.snapshot.book_valid
    → Extends l (set_snapshot snapshot l)
set_snapshot-Extends snapshot l n c b = record {
  stream_kept = refl;
  failed_stays = λ f. f;
  frozen = λ f. refl;
  causes_kept = λ f. c;
  invalid = λ h f. b ∙ h f;
  spans_kept = omega arith;
  spans_bounded = λ h. omega arith;
  row_kept = λ h. h;
}

cause-close_span :
    (recovery : Recovery) (start : ℤ) (span : CoverageSpan)
    → cause (close_span recovery start span) ≡ cause span
unfolding close_span
cause-close_span recovery start span = ground arith

map-map-same :
    (f g : CoverageSpan → CoverageSpan)
    → ((x : CoverageSpan) → g (f x) ≡ g x)
    → (xs : List CoverageSpan) → map g (map f xs) ≡ map g xs
map-map-same f g h [] = refl
map-map-same f g h (x ∷ xs) = rw (h x) (rw (map-map-same f g h xs) refl)

close_uncertain-Extends :
    (evidence : CandleEvidence) (l : Ledger) → Extends l (close_uncertain evidence l)
unfolding close_uncertain
close_uncertain-Extends evidence l =
    set_snapshot-Extends _ l
      (length-map (close_span l.stream.recovery evidence.start_ns) l.snapshot.spans)
      (map-map-same _ cause (λ span. cause-close_span l.stream.recovery evidence.start_ns span)
        l.snapshot.spans)
      refl

finalize_candle-keeps :
    (state : CoverageSnapshot) (evidence : CandleEvidence) (state' : CoverageSnapshot)
    → finalize_candle state evidence ≡ ok state'
    → (state'.spans ≡ state.spans) × (state'.book_valid ≡ state.book_valid)
unfolding finalize_candle
finalize_candle-keeps state evidence state' h = ground arith

settled-Extends :
    (r : Result CoverageSnapshot) (l : Ledger)
    → ((state : CoverageSnapshot)
        → r ≡ ok state
        → (state.spans ≡ l.snapshot.spans) × (state.book_valid ≡ l.snapshot.book_valid))
    → Extends l (settled r l).1
unfolding settled
settled-Extends (ok state) l h =
    set_snapshot-Extends state l (ap length (h state refl).0) (ap (map cause) (h state refl).0)
      (h state refl).1
settled-Extends (err e) l h = Extends-refl l

settle_candle-Extends :
    (last : Option ℤ) (evidence : CandleEvidence) → Keeps (settle_candle last evidence)
unfolding settle_candle
settle_candle-Extends last evidence l =
    settled-Extends _ l (finalize_candle-keeps (with_last_start l.snapshot last evidence) evidence)

note_sequence-Extends :
    (previous : Option ℤ) (sequence : ℤ) → Keeps (note_sequence previous sequence)
unfolding note_sequence
note_sequence-Extends previous sequence l = set_snapshot-Extends _ l refl refl refl

if-Extends :
    {A : Type 0} (l : Ledger) (b : Bool) (x y : Result A × Ledger)
    → Extends l x.1
    → Extends l y.1
    → Extends l (if b then x else y).1
if-Extends l true x y h k = h
if-Extends l false x y h k = k

sequence_gap-Extends :
    (codec : Codec) (sequence : ℤ) (receipt : ClockSample)
    → Keeps (sequence_gap codec sequence receipt)
unfolding sequence_gap
sequence_gap-Extends codec sequence receipt l =
    if-Extends l _ _ _ (loss-Extends codec _ _ _ _ _ _ l) (Extends-refl l)

observed_sequence-Extends : (codec : Codec) (raw : RawRecord) → Keeps (observed_sequence codec raw)
unfolding observed_sequence
observed_sequence-Extends codec raw l = elim (Option-cases raw.envelope.source_sequence) [
  | inl e ↦ rw (e, observed_sequence) (Extends-refl l)
  | inr (n, e) ↦
      rw (e, observed_sequence)
        (if-Extends l (has_sequence_gaps l.stream.family) _ _
          (after-Extends (sequence_gap codec (pos n) raw.envelope.receipt l) _
            (sequence_gap-Extends codec (pos n) raw.envelope.receipt l)
            (λ u _. note_sequence-Extends l.snapshot.last_sequence (pos n) _))
          (Extends-refl l))
]

candle_gap-Extends :
    (codec : Codec) (last : Option ℤ) (evidence : CandleEvidence) (sample : ClockSample)
    → Keeps (candle_gap codec last evidence sample)
unfolding candle_gap
candle_gap-Extends codec none evidence sample l = Extends-refl l
candle_gap-Extends codec (some last) evidence sample l =
    if-Extends l _ _ _ (loss-Extends codec _ _ _ _ _ _ l) (Extends-refl l)

observed_candle-Extends :
    (codec : Codec) (raw : RawRecord) (evidence : CandleEvidence)
    → Keeps (observed_candle codec raw evidence)
unfolding observed_candle
observed_candle-Extends codec raw evidence l = Extends-trans (close_uncertain-Extends evidence l) (
    after-Extends _ _ (candle_gap-Extends codec l.snapshot.last_start_ns evidence _ _)
      (λ u _. settle_candle-Extends l.snapshot.last_start_ns evidence _))

observe_evidence-Extends :
    (codec : Codec) (raw : RawRecord) (evidence : Option CandleEvidence)
    → Keeps (observe_evidence codec raw evidence)
unfolding observe_evidence
observe_evidence-Extends codec raw none l = Extends-refl l
observe_evidence-Extends codec raw (some evidence) l = observed_candle-Extends codec raw evidence l

save_offset-Extends : (codec : Codec) (raw : RawRecord) → Keeps (save_offset codec raw)
unfolding save_offset
save_offset-Extends codec raw l = save-Extends codec _ false l (omega arith) (λ h. h)

pub observed-Extends :
    (codec : Codec) (raw : RawRecord) (evidence : Option CandleEvidence)
    → Keeps (observed codec raw evidence)
unfolding observed
observed-Extends codec raw evidence l = after-Extends _ _ (Extends-refl l) λ u _.
    after-Extends _ _ (observed_sequence-Extends codec raw l) λ v _.
      after-Extends _ _ (observe_evidence-Extends codec raw evidence _)
        λ w _. save_offset-Extends codec raw _

save_spans-Extends :
    (codec : Codec) (snapshot : CoverageSnapshot) (l : Ledger) (index : ℕ) (span : CoverageSpan)
    → snapshot.spans ≡ set l.snapshot.spans index span
    → Extends l (save codec snapshot false l).1
save_spans-Extends codec snapshot l index span e =
    let n : length snapshot.spans ≡ length l.snapshot.spans =
      ap length e ∙ length-set l.snapshot.spans index span in
    save-Extends codec snapshot false l (omega arith) (λ h. omega arith)

pub repair_page-Extends :
    (codec : Codec) (index : ℕ) (starts : List ℤ) (cursor : Option Bytes) (interval : ℕ)
    (exhausted : Bool) (raw_offset : ℤ) (candles : List (ℤ × String))
    → Keeps (repair_page codec index starts cursor interval exhausted raw_offset candles)
unfolding repair_page
repair_page-Extends codec index starts cursor interval exhausted raw_offset candles l =
    after-Extends _ _ (Extends-refl l) λ span _. after-Extends _ _ (Extends-refl l) λ end _.
      after-Extends _ _ (Extends-refl l) λ updated _.
        after-Extends _ _ (Extends-refl l) λ u _. save_spans-Extends codec _ l index updated refl

pub exhaust-Extends :
    (codec : Codec) (index : ℕ) (reason : String) → Keeps (exhaust codec index reason)
unfolding exhaust
exhaust-Extends codec index reason l = after-Extends _ _ (Extends-refl l) λ span _.
    after-Extends _ _ (Extends-refl l) λ updated _. save_spans-Extends codec _ l index updated refl

pub repair_attempt-Extends : (codec : Codec) (index : ℕ) → Keeps (repair_attempt codec index)
unfolding repair_attempt
repair_attempt-Extends codec index l =
    after-Extends _ _ (Extends-refl l) λ span _. save_spans-Extends codec _ l index _ refl

pub resnapshot-Extends : (codec : Codec) (sequence : ℤ) → Keeps (resnapshot codec sequence)
unfolding resnapshot
resnapshot-Extends codec sequence l =
    if-Extends l _ _ _ (save-Extends codec _ false l (omega arith) (λ h. h)) (Extends-refl l)

follow-Extends :
    (codec : Codec) (last sequence : ℤ) (sample : ClockSample)
    → Keeps (follow codec last sequence sample)
unfolding follow
follow-Extends codec last sequence sample l =
    if-Extends l _ _ _
      (after-Extends _ _ (save-Extends codec _ false l (omega arith) (λ h. h))
        (λ u _. Extends-refl _))
      (after-Extends _ _ (loss-Extends codec _ _ _ _ _ _ l) (λ u _. Extends-refl _))

delta_after-Extends :
    (codec : Codec) (last : Option ℤ) (sequence : ℤ) (sample : ClockSample)
    → Keeps (delta_after codec last sequence sample)
unfolding delta_after
delta_after-Extends codec none sequence sample l = Extends-refl l
delta_after-Extends codec (some last) sequence sample l =
    if-Extends l _ _ _ (Extends-refl l) (follow-Extends codec last sequence sample l)

book_delta-Extends :
    (codec : Codec) (sequence : ℤ) (sample : ClockSample) → Keeps (book_delta codec sequence sample)
unfolding book_delta
book_delta-Extends codec sequence sample l =
    delta_after-Extends codec l.snapshot.last_sequence sequence sample l

pub book_observed-Extends :
    (codec : Codec) (raw : RawRecord) (evidence : BookEvidence)
    → Keeps (book_observed codec raw evidence)
unfolding book_observed
book_observed-Extends codec raw evidence l =
    after-Extends _ _ (observed-Extends codec raw none l) λ u _.
      if-Extends _ _ _ _
        (after-Extends _ _ (resnapshot-Extends codec evidence.sequence _) (λ v _. Extends-refl _))
        (book_delta-Extends codec evidence.sequence _ _)
