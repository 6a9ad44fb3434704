-- ===== src/Recovery/Coverage/Repair.antt =====
-- src/scryntic/recovery/coverage.py: `repair_page`, `repair_attempt` and `exhaust`.
pub mod Grid
use scryntic.Prelude.{
  ℕ, zero, suc, ◌+◌, ◌*◌, ◌/◌, String, Bool, true, false, not, ◌&&◌, ◌||◌, Option, none, some, List,
  [], ◌∷◌, ◌++◌, ltb, ◌==◌, length, get_elem?, set, keep, if◌then◌else◌, Result, ok, err,
  value_error, index_error, assertion_error, refuse, require, all,
}
use scryntic.Prelude.Action.{◌>>=◌, ◌>>◌, lift}
use scryntic.Prelude.Int.{ℤ, pos, pos_part, ◌+ℤ◌, ◌-ℤ◌, ltb_ℤ, leb_ℤ, eq_ℤ, max_ℤ}
use scryntic.Prelude.Sort.{sorted_set}
use scryntic.Ingestion.Metadata.{Bytes}
use scryntic.Recovery.Coverage.Contracts.{
  CoverageSpan, CoverageSnapshot, Status, complete, pending, unknown, repair_candles, checked_span,
}
use scryntic.Recovery.Coverage.Ledger.{Codec, Ledger, LedgerAction, save, is_digest}
use scryntic.Recovery.Coverage.Observe.{dict_update, latest_candles}

-- `range(start, start + count * step, step)`
unfoldable pub grid : ℤ → ℕ → ℕ → List ℤ
grid start zero step = []
grid start (suc count) step = start ∷ grid (start +ℤ pos step) count step

unfoldable pub same_starts : List ℤ → List ℤ → Bool
same_starts [] [] = true
same_starts (a ∷ as') (b ∷ bs) = eq_ℤ a b && same_starts as' bs
same_starts _ _ = false

-- the starts that the union of `repair_page` takes from a page
within : ℤ → ℤ → ℤ → Bool
within start end s = leb_ℤ start s && ltb_ℤ s end

unfoldable pub proven_starts : CoverageSpan → ℤ → List ℤ → List ℤ
unfolding within
proven_starts span end starts = sorted_set (span.repaired ++ keep (within span.start_ns end) starts)

page_status : Bool → Bool → Status
page_status true exhausted = complete
page_status false true = unknown
page_status false false = pending

-- The span after a page: the local values of `repair_page` up to `updated`.
unfoldable pub repaired_span :
    CoverageSpan → ℤ → List ℤ → Option Bytes → ℕ → Bool → Result CoverageSpan
unfolding page_status
repaired_span span end starts cursor interval exhausted =
    let width = pos_part (end -ℤ span.start_ns) in
    let count = width / interval in
    let proven = proven_starts span end starts in
    let complete? = same_starts proven (grid span.start_ns count interval) in
    if ltb repair_candles count || not (count * interval == width)
    then err (value_error "Repair range exceeds bounded candle grid")
    else checked_span (record span {
      repaired = proven;
      cursor = cursor;
      pages = span.pages +ℤ pos 1;
      status = page_status complete? exhausted;
    })

-- `spans[index]`
unfoldable pub span_at : CoverageSnapshot → ℕ → Result CoverageSpan
span_at snapshot index = elim (get_elem? snapshot.spans index) [
  | none ↦ err index_error
  | some span ↦ ok span
]

closed_end : Option ℤ → Result ℤ
closed_end none = err assertion_error
closed_end (some end) = ok end

module _ (codec : Codec) where
  -- `interval_ns` is positive at every caller
  unfoldable pub repair_page :
      ℕ → List ℤ → Option Bytes → ℕ → Bool → ℤ → List (ℤ × String) → LedgerAction (Unit {0})
  unfolding closed_end
  repair_page index starts cursor interval exhausted raw_offset final_candles l =
      let state = l.snapshot in
      let method = do
        span ← lift (span_at state index)
        end ← lift (closed_end span.end_ns)
        updated ← lift (repaired_span span end starts cursor interval exhausted)
        let known = latest_candles (dict_update (dict_update [] state.final_candles) final_candles)
        lift (require (all is_digest known) (value_error "Expected a lowercase SHA-256 digest"))
        save codec
            (record state {
              spans = set state.spans index updated;
              raw_offset = max_ℤ raw_offset state.raw_offset;
              final_candles = known;
            })
            false
      in method l

  unfoldable pub exhaust : ℕ → String → LedgerAction (Unit {0})
  exhaust index reason l =
      let state = l.snapshot in
      let method = do
        span ← lift (span_at state index)
        updated ←
            lift (checked_span (record span { status = unknown; reason = reason; cursor = none }))
        save codec (record state { spans = set state.spans index updated }) false
      in method l

  unfoldable pub repair_attempt : ℕ → LedgerAction (Unit {0})
  repair_attempt index l =
      let state = l.snapshot in
      let method = do
        span ← lift (span_at state index)
        save codec
            (record state {
              spans = set state.spans index (record span { attempts = span.attempts +ℤ pos 1 });
            })
            false
      in method l
