-- ===== src/Recovery/Coverage/Query.antt =====
-- src/scryntic/recovery/coverage.py: `CoverageLedger.coverage`.
pub mod Sound
pub mod Exact
use scryntic.Prelude.{
  Bool, true, false, ◌&&◌, Option, none, some, List, [], ◌∷◌, if◌then◌else◌, Result, ok,
  value_error, refuse, ◌>>=◌, ◌>>◌, keep, any,
}
use scryntic.Prelude.Int.{ℤ, ltb_ℤ, leb_ℤ, max_ℤ}
use scryntic.Prelude.Sort.{sort_by}
use scryntic.Recovery.Coverage.Contracts.{
  CoverageSpan, CoverageSnapshot, Status, complete, pending, unknown, unrecoverable, same_status,
}

ends_after : ℤ → Option ℤ → Bool
ends_after start none = true
ends_after start (some end) = ltb_ℤ start end

-- the spans that the comprehension of `coverage` keeps
unfoldable pub overlaps : ℤ → ℤ → CoverageSpan → Bool
unfolding ends_after
overlaps start end span = ltb_ℤ span.start_ns end && ends_after start span.end_ns

-- the loop over the sorted spans, from `covered_until`
unfoldable pub covered_until : ℤ → List CoverageSpan → ℤ
covered_until until [] = until
covered_until until (span ∷ spans) =
    let next : ℤ = elim span.end_ns [
      | none ↦ until
      | some end ↦
          (let rest = covered_until (max_ℤ until end) spans in
            if ltb_ℤ until span.start_ns then until else rest)
    ] in
    next

unfoldable pub unknown_before : Option ℤ → ℤ → Bool
unknown_before none end = false
unknown_before (some since) end = ltb_ℤ since end

unfoldable pub has_status : Status → List CoverageSpan → Bool
has_status status = any (λ span. same_status span.status status)

unfoldable pub coverage : CoverageSnapshot → ℤ → ℤ → Result Status
unfolding has_status unknown_before
coverage snapshot start end = do
  refuse (leb_ℤ end start) (value_error "Empty coverage query")
  let spans = keep (overlaps start end) snapshot.spans
  ok (
      if has_status unrecoverable spans
      then unrecoverable
      else if has_status unknown spans
      then unknown
      else if has_status pending spans
      then pending
      else if unknown_before snapshot.unknown_since_ns end
      then unknown
      else if leb_ℤ end (covered_until start (sort_by (λ s. s.start_ns) spans))
      then complete
      else unknown)
