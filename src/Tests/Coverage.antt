-- ===== src/Tests/Coverage.antt =====
-- src/scryntic/recovery/coverage.py: queries, observations, pages and deltas at concrete values.
use scryntic.Domain.Identity.{same_subject}
use scryntic.Ingestion.Metadata.{upsert, same_value, same_bytes, row, recovery_put}
use scryntic.Prelude.Action.{after}
use scryntic.Domain.Validation.{is_identifier, identifier}
use scryntic.Prelude.Sort.{sorted_set, insert_by, sort_by}
use scryntic.Prelude.{
  ◌≡◌, ◌⊎◌, inl, ◌↔◌, true, false, none, some, List, [], ◌∷◌, ok, refl, arith, Any, All, ◌/◌, ◌*◌,
}
use scryntic.Prelude.Int.{◌+ℤ◌, ℤ, pos, ◌-ℤ◌, pos_part, max_ℤ}
use scryntic.Recovery.Coverage.Contracts.{
  matches, checked_span, CoverageSnapshot, CoverageSpan, complete, pending, candle, trade, book,
  backfill, coverage_loss, resnapshot, baseline,
}
use scryntic.Domain.Time.{ClockSample}
use scryntic.Recovery.Coverage.Ledger.{loss_status, append_span, lost_span, loss, save, Ledger}
use scryntic.Recovery.Coverage.Query.{unknown_before, covered_until, coverage, overlaps}
use scryntic.Recovery.Coverage.Query.Sound.{Covers, coverage_complete-Covers}
use scryntic.Recovery.Coverage.Query.Exact.{coverage_of_complete}
use scryntic.Recovery.Coverage.Observe.{
  save_offset, observe_evidence, note_sequence, skips, sequence_gap, observed_sequence,
  resolved_boundary, latest_candles, dict_set, close_span, dict_update, dict_get, finalize_candle,
  settled, settle_candle, close_uncertain, is_gap, candle_gap, observed, observed_candle, or_zero,
}
use scryntic.Recovery.Coverage.Observe.Checkpoint.{Advances, observed-Advances}
use scryntic.Recovery.Coverage.Observe.Candles.{observed_candle-Covers}
use scryntic.Recovery.Coverage.Observe.Gaps.{Skipped, Followed, observed-sequence_gap}
use scryntic.Recovery.Coverage.Repair.{same_starts, proven_starts, repaired_span, grid}
use scryntic.Recovery.Coverage.Repair.Grid.{IsIn, repaired_span-complete}
use scryntic.Recovery.Coverage.Book.{follow, delta_after, book_delta}
use scryntic.Recovery.Coverage.Book.Continuity.{
  Consecutive, apply_deltas, last_of, deltas-Consecutive,
}
use scryntic.Tests.Data.{receipt, raw, span, candle_at, codec, ledger}

abbrev two_spans : CoverageSnapshot
two_spans = record (baseline (pos 0)) {
  spans = span complete (pos 10) (some (pos 20)) ∷ span complete (pos 0) (some (pos 10)) ∷ [];
}

two_spans_test : coverage two_spans (pos 0) (pos 20) ≡ ok complete
unfolding coverage overlaps covered_until sort_by insert_by
two_spans_test = refl

coverage_complete-Covers_example :
    Any (λ s. Covers (pos 13) s × (s.status ≡ complete)) two_spans.spans
    × All (λ s. overlaps (pos 0) (pos 20) s ≡ true → s.status ≡ complete) two_spans.spans
coverage_complete-Covers_example =
    coverage_complete-Covers two_spans (pos 0) (pos 20) (pos 13) two_spans_test (omega arith)
      (omega arith)

abbrev one_span : CoverageSnapshot
one_span = record (baseline (pos 0)) { spans = span complete (pos 0) (some (pos 20)) ∷ [] }

coverage_of_complete_example : coverage one_span (pos 3) (pos 9) ≡ ok complete
unfolding overlaps unknown_before
coverage_of_complete_example =
    coverage_of_complete one_span (pos 3) (pos 9) (omega arith) refl ((λ h. (refl, λ e. cc)), tt)
      (λ t low high. inl ((pos 20, refl, omega arith, omega arith), refl))

abbrev after_candle : Ledger
after_candle = ledger candle backfill (record (baseline (pos 0)) { last_start_ns = some (pos 0) })

observed-Advances_example :
    Advances after_candle (observed codec (raw none 1) (some (candle_at (pos 30))) after_candle).1
observed-Advances_example =
    observed-Advances codec (raw none 1) (some (candle_at (pos 30))) after_candle

candle_test : (observed_candle codec (raw none 1) (candle_at (pos 30)) after_candle).0 ≡ ok tt
unfolding observed_candle after candle_gap is_gap close_uncertain loss checked_span lost_span
    identifier append_span save recovery_put row settle_candle settled finalize_candle dict_get
    dict_update is_identifier same_bytes same_value upsert ◌+ℤ◌ insert_by sort_by loss_status
    close_span dict_set latest_candles resolved_boundary
candle_test = refl

observed_candle-Covers_example :
    Any
      (Covers (pos 17))
      (observed_candle codec (raw none 1) (candle_at (pos 30)) after_candle).1.snapshot.spans
observed_candle-Covers_example =
    observed_candle-Covers codec (raw none 1) (candle_at (pos 30)) after_candle (pos 0) (pos 17)
      refl candle_test (inl (unfold ◌+ℤ◌ in omega arith)) (omega arith)

abbrev after_trade : Ledger
after_trade =
    ledger trade coverage_loss (record (baseline (pos 0)) { last_sequence = some (pos 4) })

trade_test : (observed codec (raw (some 9) 2) none after_trade).0 ≡ ok tt
unfolding observed after matches observed_sequence sequence_gap skips ◌+ℤ◌ loss checked_span
    lost_span identifier append_span save recovery_put row note_sequence observe_evidence
    save_offset same_subject is_identifier same_bytes same_value upsert ◌-ℤ◌ insert_by sort_by
    loss_status candle_gap close_span close_uncertain dict_get dict_set dict_update finalize_candle
    is_gap latest_candles observed_candle resolved_boundary settle_candle settled
trade_test = refl

observed-sequence_gap_example :
    (Skipped after_trade 9 (observed codec (raw (some 9) 2) none after_trade).1.snapshot.spans
      ⊎ Followed after_trade 9 (observed codec (raw (some 9) 2) none after_trade).1.snapshot.spans)
    × ((observed codec (raw (some 9) 2) none after_trade).1.snapshot.last_sequence
        ≡ some (max_ℤ (pos 9) (or_zero (some (pos 4)))))
observed-sequence_gap_example =
    observed-sequence_gap codec 9 (raw (some 9) 2) after_trade refl refl trade_test

abbrev half_repaired : CoverageSpan
half_repaired = record (span pending (pos 0) (some (pos 20))) { repaired = pos 0 ∷ [] }

abbrev repaired : CoverageSpan
repaired = record (span complete (pos 0) (some (pos 20))) {
  repaired = pos 0 ∷ pos 10 ∷ [];
  pages = pos 1;
}

page_test : repaired_span half_repaired (pos 20) (pos 10 ∷ []) none 10 false ≡ ok repaired
unfolding repaired_span ◌-ℤ◌ checked_span identifier proven_starts sorted_set same_starts ◌+ℤ◌ grid
page_test = refl

repaired_span-complete_example :
    let count = pos_part (pos 20 -ℤ pos 0) / 10 in
    (count * 10 ≡ pos_part (pos 20 -ℤ pos 0))
    × ((repaired.status ≡ complete) ↔ (repaired.repaired ≡ grid (pos 0) count 10))
    × (repaired.status ≡ complete
        → All (λ t. IsIn t (pos 0 ∷ []) ⊎ IsIn t (pos 10 ∷ [])) (grid (pos 0) count 10))
repaired_span-complete_example =
    repaired_span-complete half_repaired (pos 20) (pos 10 ∷ []) none 10 false repaired page_test

abbrev valid_book : Ledger
valid_book =
    ledger book resnapshot
      (record (baseline (pos 0)) { book_valid = true; last_sequence = some (pos 4) })

delta_test : (book_delta codec (pos 5) receipt valid_book).0 ≡ ok true
unfolding book_delta delta_after follow ◌+ℤ◌ after save recovery_put identifier row
delta_test = refl

deltas-Consecutive_example :
    let deltas : List (ℤ × ClockSample) = (pos 5, receipt) ∷ (pos 6, receipt) ∷ [] in
    Consecutive (pos 4) deltas
    × ((apply_deltas codec deltas valid_book).snapshot.book_valid ≡ true)
    × ((apply_deltas codec deltas valid_book).snapshot.last_sequence
        ≡ some (last_of (pos 4) deltas))
unfolding book_delta delta_after follow ◌+ℤ◌ after save recovery_put identifier row upsert
    same_bytes
deltas-Consecutive_example =
    deltas-Consecutive codec ((pos 5, receipt) ∷ (pos 6, receipt) ∷ []) valid_book (pos 4) refl refl
      (delta_test, (refl, tt))
