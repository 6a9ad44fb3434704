-- ===== src/Recovery/Coverage/Observe/Gaps.antt =====
-- src/scryntic/recovery/coverage.py: what is missing between two observations is recorded.
use scryntic.Prelude.{
  ℕ, ◌≡◌, ◌∙◌, true, Option, none, some, List, [], ◌∷◌, ◌++◌, arith, Result, ok, err, if◌then◌else◌,
  refl, ap, inl, inr, Bool-cases, sym, String, ◌⊎◌, subst,
}
use scryntic.Prelude.Action.{after}
use scryntic.Prelude.Int.{ℤ, pos, ◌+ℤ◌, ◌-ℤ◌, max_ℤ, ltb_ℤ, ◌≤ℤ◌, ◌<ℤ◌}
use scryntic.Domain.Raw.{RawRecord}
use scryntic.Domain.Time.{ClockSample}
use scryntic.Recovery.Coverage.Contracts.{CoverageSpan, unrecoverable, checked_span}
use scryntic.Recovery.Coverage.Ledger.{
  Codec, Ledger, LedgerAction, lost_span, loss_status, save, append_span, loss,
}
use scryntic.Recovery.Coverage.Observe.{
  has_sequence_gaps, skips, or_zero, note_sequence, sequence_gap, observed_sequence,
  observe_evidence, save_offset, observed,
}

module _ {A B : Type 0} where
  -- A sequence that returned has two parts that returned.
  pub after-ok :
      (r : Result A × Ledger) (f : A → LedgerAction B) {b : B}
      → (after r f).0 ≡ ok b
      → (a : A) × (r.0 ≡ ok a) × ((f a r.1).0 ≡ ok b) × (after r f ≡ f a r.1)
  unfolding after
  after-ok (ok a, l) f h = (a, refl, h, refl)
  after-ok (err e, l) f h = cc

pub loss-spans :
    (codec : Codec) (start : ℤ) (end : Option ℤ) (reason : String) (sample : ClockSample)
    (first last : Option ℤ) (l : Ledger) {u : Unit {0}}
    → (loss codec start end reason sample first last l).0 ≡ ok u
    → ((loss codec start end reason sample first last l).1.snapshot.spans
        ≡ l.snapshot.spans ++ lost_span l start end reason sample first last ∷ [])
      × ((loss codec start end reason sample first last l).1.snapshot.last_sequence
          ≡ l.snapshot.last_sequence)
unfolding loss append_span save after checked_span
loss-spans codec start end reason sample first last l h = (ground arith, ground arith)

pub save_offset-spans :
    (codec : Codec) (raw : RawRecord) (l : Ledger)
    → ((save_offset codec raw l).1.snapshot.spans ≡ l.snapshot.spans)
      × ((save_offset codec raw l).1.snapshot.last_sequence ≡ l.snapshot.last_sequence)
unfolding save_offset save
save_offset-spans codec raw l = (ground arith, ground arith)

-- the span of the sequence numbers between the last one and this one
abbrev gap_span : Ledger → RawRecord → ℕ → CoverageSpan
gap_span l raw n =
    lost_span l l.snapshot.checkpoint_ns none "trade-sequence-gap" raw.envelope.receipt
      (some (or_zero l.snapshot.last_sequence +ℤ pos 1)) (some (pos n -ℤ pos 1))

-- the spans after sequence `n` is observed
abbrev spans_with_gap : Ledger → RawRecord → ℕ → List CoverageSpan
spans_with_gap l raw n =
    if skips l.snapshot.last_sequence (pos n)
    then l.snapshot.spans ++ gap_span l raw n ∷ []
    else l.snapshot.spans

sequence_gap-spans :
    (codec : Codec) (n : ℕ) (raw : RawRecord) (l : Ledger) {u : Unit {0}}
    → (sequence_gap codec (pos n) raw.envelope.receipt l).0 ≡ ok u
    → (sequence_gap codec (pos n) raw.envelope.receipt l).1.snapshot.spans ≡ spans_with_gap l raw n
unfolding sequence_gap
sequence_gap-spans codec n raw l h = elim (Bool-cases (skips l.snapshot.last_sequence (pos n))) [
  | inl skip ↦
      rw (skip, sequence_gap)
        (loss-spans codec l.snapshot.checkpoint_ns none "trade-sequence-gap" raw.envelope.receipt
          (some (or_zero l.snapshot.last_sequence +ℤ pos 1)) (some (pos n -ℤ pos 1)) l
          (rw skip at h)).0
  | inr next ↦ rw (next, sequence_gap) refl
]

observed_sequence-spans :
    (codec : Codec) (n : ℕ) (raw : RawRecord) (l : Ledger) {u : Unit {0}}
    → raw.envelope.source_sequence ≡ some n
    → has_sequence_gaps l.stream.family ≡ true
    → (observed_sequence codec raw l).0 ≡ ok u
    → ((observed_sequence codec raw l).1.snapshot.spans ≡ spans_with_gap l raw n)
      × ((observed_sequence codec raw l).1.snapshot.last_sequence
          ≡ some (max_ℤ (pos n) (or_zero l.snapshot.last_sequence)))
unfolding observed_sequence
observed_sequence-spans codec n raw l known kind h =
    go (rw (known, observed_sequence) (rw kind refl))
  where
    steps : Result (Unit {0}) × Ledger
    steps =
        after (sequence_gap codec (pos n) raw.envelope.receipt l)
          (λ u. note_sequence l.snapshot.last_sequence (pos n))

    go :
        observed_sequence codec raw l ≡ steps
        → ((observed_sequence codec raw l).1.snapshot.spans ≡ spans_with_gap l raw n)
          × ((observed_sequence codec raw l).1.snapshot.last_sequence
              ≡ some (max_ℤ (pos n) (or_zero l.snapshot.last_sequence)))
    go e =
        let (a, first, second, rest) =
          after-ok (sequence_gap codec (pos n) raw.envelope.receipt l) _
            (ap (λ r. r.0) (sym e) ∙ h) in
        let whole = e ∙ rest in
        (
          ap (λ r. r.1.snapshot.spans) whole
              ∙ unfold note_sequence in sequence_gap-spans codec n raw l first,
          ap (λ r. r.1.snapshot.last_sequence) whole ∙ unfold note_sequence in refl,
        )

-- Numbers were skipped between the last one and `n`, and a span that names the first and the last
-- of them has been added, of which nothing can be recovered.
pub record Skipped (l : Ledger) (n : ℕ) (spans : List CoverageSpan) : Type 0 where
  pub previous : ℤ
  pub span : CoverageSpan
  pub was_last : l.snapshot.last_sequence ≡ some previous
  pub skips_some : previous +ℤ pos 1 <ℤ pos n
  pub added : spans ≡ l.snapshot.spans ++ span ∷ []
  pub from_checkpoint : span.start_ns ≡ l.snapshot.checkpoint_ns
  pub is_open : span.end_ns ≡ none
  pub is_lost : span.status ≡ unrecoverable
  pub first_skipped : span.first_sequence ≡ some (previous +ℤ pos 1)
  pub last_skipped : span.last_sequence ≡ some (pos n -ℤ pos 1)

-- None was skipped, and the spans are as before.
pub record Followed (l : Ledger) (n : ℕ) (spans : List CoverageSpan) : Type 0 where
  pub skips_none :
      (previous : ℤ) → l.snapshot.last_sequence ≡ some previous → pos n ≤ℤ previous +ℤ pos 1
  pub as_before : spans ≡ l.snapshot.spans

spans_with_gap-cases :
    (l : Ledger) (raw : RawRecord) (n : ℕ) (o : Option ℤ)
    → l.snapshot.last_sequence ≡ o
    → has_sequence_gaps l.stream.family ≡ true
    → Skipped l n (spans_with_gap l raw n) ⊎ Followed l n (spans_with_gap l raw n)
unfolding skips lost_span
spans_with_gap-cases l raw n none e kind =
    inr (record { skips_none = λ previous h. absurd (cc); as_before = rw (e, skips) refl })
spans_with_gap-cases l raw n (some previous) e kind =
    elim (Bool-cases (ltb_ℤ (previous +ℤ pos 1) (pos n))) [
      | inl skip ↦ inl (record {
        previous = previous;
        span = gap_span l raw n;
        was_last = e;
        skips_some = ground arith;
        added = rw (e, skips) (rw skip refl);
        from_checkpoint = refl;
        is_open = refl;
        is_lost = unfold loss_status in ground arith;
        first_skipped = rw e refl;
        last_skipped = refl;
      })
      | inr next ↦ inr (record {
        skips_none = λ other h. (let same : previous ≡ other = ground arith in ground arith);
        as_before = rw (e, skips) (rw next refl);
      })
    ]

-- On a trade or liquidation stream, when a record with sequence number `n` is observed and the call
-- returns: either the last number seen was below `n - 1`, and one span is added that names the first
-- and the last of the numbers between and cannot be recovered; or it was not, or there was none,
-- and the spans are as before. The last number seen becomes the larger of the old one, or 0, and
-- `n`.
pub observed-sequence_gap :
    (codec : Codec) (n : ℕ) (raw : RawRecord) (l : Ledger) {u : Unit {0}}
    → raw.envelope.source_sequence ≡ some n
    → has_sequence_gaps l.stream.family ≡ true
    → (observed codec raw none l).0 ≡ ok u
    → (Skipped l n (observed codec raw none l).1.snapshot.spans
        ⊎ Followed l n (observed codec raw none l).1.snapshot.spans)
      × ((observed codec raw none l).1.snapshot.last_sequence
          ≡ some (max_ℤ (pos n) (or_zero l.snapshot.last_sequence)))
unfolding observed observe_evidence
observed-sequence_gap codec n raw l known kind h =
    let (a, checked, h1, e1) = after-ok _ _ h in
    let (b, seen, h2, e2) = after-ok (observed_sequence codec raw l) _ h1 in
    let (c, nothing, h3, e3) = after-ok _ _ h2 in
    let whole = e1 ∙ e2 ∙ e3 in
    let (spans, last) = observed_sequence-spans codec n raw l known kind seen in
    let (kept, kept_last) = save_offset-spans codec raw (observed_sequence codec raw l).1 in
    (
      subst (λ x. Skipped l n x ⊎ Followed l n x)
          (sym (ap (λ r. r.1.snapshot.spans) whole ∙ kept ∙ spans))
          (spans_with_gap-cases l raw n l.snapshot.last_sequence refl kind),
      ap (λ r. r.1.snapshot.last_sequence) whole ∙ kept_last ∙ last,
    )
