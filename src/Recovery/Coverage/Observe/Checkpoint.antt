-- ===== src/Recovery/Coverage/Observe/Checkpoint.antt =====
-- src/scryntic/recovery/coverage.py: the checkpoint of a stream of candles.
use scryntic.Prelude.{
  ◌≡◌, ◌∙◌, Bool, true, false, Option, none, some, List, [], ◌∷◌, arith, Result, ok, err,
  if◌then◌else◌, refl, keep, All, All-imp, All-of_keep, ◌⊎◌, inl, inr, String, Option-cases,
}
use scryntic.Prelude.Action.{after}
use scryntic.Prelude.Int.{ℤ, pos, ◌≤ℤ◌, min_ℤ, ◌+ℤ◌}
use scryntic.Domain.Raw.{RawRecord}
use scryntic.Domain.Time.{ClockSample}
use scryntic.Recovery.Coverage.Contracts.{CoverageSpan, CoverageSnapshot, CandleEvidence, complete}
use scryntic.Recovery.Coverage.Ledger.{Codec, Ledger, LedgerAction, save, append_span, loss}
use scryntic.Recovery.Coverage.Observe.{
  is_unresolved, least_start, resolved_boundary, finalize_candle, settled, settle_candle,
  with_last_start, close_uncertain, note_sequence, sequence_gap, observed_sequence, candle_gap,
  observed_candle, observe_evidence, save_offset, observed, has_sequence_gaps,
}

-- the span is settled, or starts at or after the time
abbrev pub NotPassed : ℤ → CoverageSpan → Type 0
NotPassed t span = (span.status ≡ complete) ⊎ (t ≤ℤ span.start_ns)

least_start-le :
    (b : ℤ) (spans : List CoverageSpan)
    → (least_start b spans ≤ℤ b) × All (λ s. least_start b spans ≤ℤ s.start_ns) spans
unfolding least_start
least_start-le b [] = (omega arith, tt)
least_start-le b (s ∷ spans) =
    let (low, each) = least_start-le (min_ℤ b s.start_ns) spans in
    (ground arith, (ground arith, each))

abbrev UnresolvedOrComplete : (b : ℤ) (span : CoverageSpan) → Type 0
UnresolvedOrComplete b span = is_unresolved span ≡ true → b ≤ℤ span.start_ns

not_passed : (b : ℤ) (span : CoverageSpan) → UnresolvedOrComplete b span → NotPassed b span
unfolding is_unresolved
not_passed b span h = ground arith

resolved_boundary-NotPassed :
    (state : CoverageSnapshot) (evidence : CandleEvidence)
    → All (NotPassed (resolved_boundary state evidence)) state.spans
unfolding resolved_boundary
resolved_boundary-NotPassed state evidence =
    All-imp (λ s h. not_passed _ s h) state.spans
      (All-of_keep _ is_unresolved state.spans
        (least_start-le (evidence.start_ns +ℤ pos evidence.interval_ns)
          (keep is_unresolved state.spans)).1)

-- The checkpoint does not fall, and where it has moved it has passed no span that is not complete.
pub record Advances (l m : Ledger) : Type 0 where
  pub grows : l.snapshot.checkpoint_ns ≤ℤ m.snapshot.checkpoint_ns
  pub stops :
      (m.snapshot.checkpoint_ns ≡ l.snapshot.checkpoint_ns)
      ⊎ All (NotPassed m.snapshot.checkpoint_ns) m.snapshot.spans

record SameCheckpoint (l m : Ledger) : Type 0 where
  same : m.snapshot.checkpoint_ns ≡ l.snapshot.checkpoint_ns

SameCheckpoint-refl : {l : Ledger} → SameCheckpoint l l
SameCheckpoint-refl = record { same = refl }

SameCheckpoint-Advances : (l m : Ledger) → SameCheckpoint l m → Advances l m
SameCheckpoint-Advances l m e = record { grows = rw e.same (omega arith); stops = inl e.same }

finalize_candle-checkpoint :
    (state : CoverageSnapshot) (evidence : CandleEvidence) (state' : CoverageSnapshot)
    → finalize_candle state evidence ≡ ok state'
    → (state'.spans ≡ state.spans)
      × ((state'.checkpoint_ns ≡ state.checkpoint_ns)
          ⊎ ((state.checkpoint_ns ≤ℤ resolved_boundary state evidence)
              × (state'.checkpoint_ns ≡ resolved_boundary state evidence)))
unfolding finalize_candle
finalize_candle-checkpoint state evidence state' h = ground arith

settled-Advances :
    (r : Result CoverageSnapshot) (l : Ledger)
    → ((state : CoverageSnapshot) → r ≡ ok state → Advances l (record l { snapshot = state }))
    → Advances l (settled r l).1
unfolding settled
settled-Advances (ok state) l h = h state refl
settled-Advances (err e) l h = SameCheckpoint-Advances l l SameCheckpoint-refl

settle_candle-Advances :
    (last : Option ℤ) (evidence : CandleEvidence) (l : Ledger)
    → Advances l (settle_candle last evidence l).1
unfolding settle_candle
settle_candle-Advances last evidence l = settled-Advances _ l λ state' e.
    let state = with_last_start l.snapshot last evidence in
    let (spans, moved) = finalize_candle-checkpoint state evidence state' e in
    elim moved [
      | inl same ↦
          SameCheckpoint-Advances l (record l { snapshot = state' }) (record { same = same })
      | inr (grows, to) ↦ record {
        grows = rw to grows;
        stops = inr (rw (spans, to) (resolved_boundary-NotPassed state evidence));
      }
    ]

after-Same :
    {A B : Type 0} {l : Ledger} (r : Result A × Ledger) (f : A → LedgerAction B)
    → SameCheckpoint l r.1
    → ((a : A) → r.0 ≡ ok a → SameCheckpoint r.1 (f a r.1).1)
    → SameCheckpoint l (after r f).1
unfolding after
after-Same (ok a, m) f h k = record { same = (k a refl).same ∙ h.same }
after-Same (err e, m) f h k = h

if-Same :
    {A : Type 0} {l : Ledger} (b : Bool) (x y : Result A × Ledger)
    → SameCheckpoint l x.1
    → SameCheckpoint l y.1
    → SameCheckpoint l (if b then x else y).1
if-Same true x y h k = h
if-Same false x y h k = k

save-Same :
    (codec : Codec) (snapshot : CoverageSnapshot) (restart : Bool) (l : Ledger)
    → snapshot.checkpoint_ns ≡ l.snapshot.checkpoint_ns
    → SameCheckpoint l (save codec snapshot restart l).1
unfolding save
save-Same codec snapshot restart l h = record { same = ground arith }

append_span-Same :
    (codec : Codec) (span : CoverageSpan) (l : Ledger)
    → SameCheckpoint l (append_span codec span l).1
unfolding append_span
append_span-Same codec span l = save-Same codec _ false l refl

loss-Same :
    (codec : Codec) (start : ℤ) (end : Option ℤ) (reason : String) (sample : ClockSample)
    (first last : Option ℤ) (l : Ledger)
    → SameCheckpoint l (loss codec start end reason sample first last l).1
unfolding loss
loss-Same codec start end reason sample first last l = after-Same _ _ SameCheckpoint-refl λ span _.
    after-Same _ _ SameCheckpoint-refl λ u _. record { same = (append_span-Same codec _ _).same }

sequence_gap-Same :
    (codec : Codec) (sequence : ℤ) (receipt : ClockSample) (l : Ledger)
    → SameCheckpoint l (sequence_gap codec sequence receipt l).1
unfolding sequence_gap
sequence_gap-Same codec sequence receipt l =
    if-Same _ _ _ (loss-Same codec _ _ _ _ _ _ l) SameCheckpoint-refl

observed_sequence-Same :
    (codec : Codec) (raw : RawRecord) (l : Ledger)
    → SameCheckpoint l (observed_sequence codec raw l).1
unfolding observed_sequence note_sequence
observed_sequence-Same codec raw l = elim (Option-cases raw.envelope.source_sequence) [
  | inl e ↦ rw (e, observed_sequence) SameCheckpoint-refl
  | inr (n, e) ↦
      rw (e, observed_sequence)
        (if-Same (has_sequence_gaps l.stream.family) _ _
          (after-Same (sequence_gap codec (pos n) raw.envelope.receipt l) _
            (sequence_gap-Same codec (pos n) raw.envelope.receipt l)
            (λ u _. record { same = refl }))
          SameCheckpoint-refl)
]

candle_gap-Same :
    (codec : Codec) (last : Option ℤ) (evidence : CandleEvidence) (sample : ClockSample)
    (l : Ledger)
    → SameCheckpoint l (candle_gap codec last evidence sample l).1
unfolding candle_gap
candle_gap-Same codec none evidence sample l = SameCheckpoint-refl
candle_gap-Same codec (some last) evidence sample l =
    if-Same _ _ _ (loss-Same codec _ _ _ _ _ _ l) SameCheckpoint-refl

-- What comes before an advance leaves the checkpoint.
after-Advances :
    {A B : Type 0} {l : Ledger} (r : Result A × Ledger) (f : A → LedgerAction B)
    → SameCheckpoint l r.1
    → ((a : A) → r.0 ≡ ok a → Advances r.1 (f a r.1).1)
    → Advances l (after r f).1
unfolding after
after-Advances {l = l} (ok a, m) f h k = record {
  grows = rw (← h.same) (k a refl).grows;
  stops = rw (← h.same) (k a refl).stops;
}
after-Advances {l = l} (err e, m) f h k = SameCheckpoint-Advances l m h

observe_evidence-Advances :
    (codec : Codec) (raw : RawRecord) (evidence : Option CandleEvidence) (l : Ledger)
    → Advances l (observe_evidence codec raw evidence l).1
unfolding observe_evidence observed_candle close_uncertain
observe_evidence-Advances codec raw none l = SameCheckpoint-Advances l l SameCheckpoint-refl
observe_evidence-Advances codec raw (some evidence) l =
    after-Advances
      (candle_gap codec l.snapshot.last_start_ns evidence raw.envelope.receipt
        (close_uncertain evidence l))
      _
      (record {
        same =
            (candle_gap-Same codec l.snapshot.last_start_ns evidence _
              (close_uncertain evidence l)).same;
      })
      (λ u _. settle_candle-Advances l.snapshot.last_start_ns evidence _)

save_offset-keeps :
    (codec : Codec) (raw : RawRecord) (l : Ledger)
    → ((save_offset codec raw l).1.snapshot.checkpoint_ns ≡ l.snapshot.checkpoint_ns)
      × ((save_offset codec raw l).1.snapshot.spans ≡ l.snapshot.spans)
unfolding save_offset save
save_offset-keeps codec raw l = (ground arith, ground arith)

-- What comes after an advance leaves the checkpoint and the spans.
Advances-after :
    {A B : Type 0} {l : Ledger} (r : Result A × Ledger) (f : A → LedgerAction B)
    → Advances l r.1
    → ((a : A) (m : Ledger)
        → ((f a m).1.snapshot.checkpoint_ns ≡ m.snapshot.checkpoint_ns)
          × ((f a m).1.snapshot.spans ≡ m.snapshot.spans))
    → Advances l (after r f).1
unfolding after
Advances-after (ok a, m) f h k = record {
  grows = rw ((k a m).0) h.grows;
  stops = rw ((k a m).0, (k a m).1) h.stops;
}
Advances-after (err e, m) f h k = h

-- Whatever is observed, and whether the call returns or raises: the checkpoint does not fall, and
-- where it has moved, no span that is not complete starts before it.
pub observed-Advances :
    (codec : Codec) (raw : RawRecord) (evidence : Option CandleEvidence) (l : Ledger)
    → Advances l (observed codec raw evidence l).1
unfolding observed
observed-Advances codec raw evidence l = after-Advances _ _ SameCheckpoint-refl λ u _.
    after-Advances _ _ (observed_sequence-Same codec raw l) λ v _.
      Advances-after _ _ (observe_evidence-Advances codec raw evidence _)
        (λ w m. save_offset-keeps codec raw m)
