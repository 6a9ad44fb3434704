-- ===== src/Recovery/Coverage/Query/Sound.antt =====
-- src/scryntic/recovery/coverage.py: what an answer of `CoverageLedger.coverage` promises.
use scryntic.Prelude.{
  ◌≡◌, true, false, none, some, List, [], ◌∷◌, arith, if◌then◌else◌, ok, keep, Any, Any-keep,
  Any-imp, ◌⊎◌, inl, inr, Bool-cases, Any-All, All-of_keep, All, Option-cases,
}
use scryntic.Prelude.Int.{ℤ, ltb_ℤ, leb_ℤ, max_ℤ, ◌≤ℤ◌, ◌<ℤ◌}
use scryntic.Prelude.Sort.{sort_by, insert_by}
use scryntic.Recovery.Coverage.Contracts.{
  CoverageSpan, CoverageSnapshot, complete, pending, unknown, unrecoverable,
}
use scryntic.Recovery.Coverage.Query.{overlaps, covered_until, coverage, has_status}

-- The span is closed and the time lies in it.
abbrev pub Covers : ℤ → CoverageSpan → Type 0
Covers t span = (end : ℤ) × (span.end_ns ≡ some end) × (span.start_ns ≤ℤ t) × (t <ℤ end)

module _ (P : CoverageSpan → Type 0) (key : CoverageSpan → ℤ) where
  Any-insert_by :
      (x : CoverageSpan) (xs : List CoverageSpan) → Any P (insert_by key x xs) → P x ⊎ Any P xs
  unfolding insert_by
  Any-insert_by x [] h = h
  Any-insert_by x (y ∷ ys) h = elim (Bool-cases (leb_ℤ (key x) (key y))) [
    | inl t ↦ rw t at h
    | inr f ↦
        (let k : P y ⊎ Any P (insert_by key x ys) = rw f at h in
          elim k [
            | inl a ↦ inr (inl a)
            | inr r ↦ elim (Any-insert_by x ys r) [ inl b ↦ inl b | inr c ↦ inr (inr c) ]
          ])
  ]

  Any-sort_by : (xs : List CoverageSpan) → Any P (sort_by key xs) → Any P xs
  unfolding sort_by
  Any-sort_by [] h = h
  Any-sort_by (x ∷ xs) h = elim (Any-insert_by x (sort_by key xs) h) [
    | inl a ↦ inl a
    | inr r ↦ inr (Any-sort_by xs r)
  ]

pub covered_until-step :
    (until end : ℤ) (span : CoverageSpan) (spans : List CoverageSpan)
    → span.end_ns ≡ some end
    → covered_until until (span ∷ spans)
      ≡ (if ltb_ℤ until span.start_ns then until else covered_until (max_ℤ until end) spans)
unfolding covered_until
covered_until-step until end span spans h = ground arith

covered_until-open :
    (until : ℤ) (span : CoverageSpan) (spans : List CoverageSpan)
    → span.end_ns ≡ none
    → covered_until until (span ∷ spans) ≡ until
unfolding covered_until
covered_until-open until span spans h = ground arith

-- a time that the loop passed is in one of the spans
covered_until-Covers :
    (until t : ℤ) (spans : List CoverageSpan)
    → until ≤ℤ t
    → t <ℤ covered_until until spans
    → Any (Covers t) spans
covered_until-Covers until t [] h k = absurd (unfold covered_until in omega arith)
covered_until-Covers until t (span ∷ spans) h k = elim (Option-cases span.end_ns) [
  | inl unclosed ↦ absurd (ground (arith, covered_until-open until span spans unclosed))
  | inr (end, closed) ↦ elim (Bool-cases (ltb_ℤ t end)) [
    | inl before ↦
        inl (
          end,
          closed,
          ground (arith, covered_until-step until end span spans closed),
          ground arith,
        )
    | inr after ↦ inr (
        covered_until-Covers (max_ℤ until end) t spans (ground arith)
          (ground (arith, covered_until-step until end span spans closed)))
  ]
]

-- The answer of the ladder, for the spans that overlap the query.
record IsComplete (snapshot : CoverageSnapshot) (start end : ℤ) : Type 0 where
  none_unrecoverable : has_status unrecoverable (keep (overlaps start end) snapshot.spans) ≡ false
  none_unknown : has_status unknown (keep (overlaps start end) snapshot.spans) ≡ false
  none_pending : has_status pending (keep (overlaps start end) snapshot.spans) ≡ false
  reached :
      end
      ≤ℤ covered_until start (sort_by (λ s. s.start_ns) (keep (overlaps start end) snapshot.spans))
  ordered : start <ℤ end

coverage-IsComplete :
    (snapshot : CoverageSnapshot) (start end : ℤ)
    → coverage snapshot start end ≡ ok complete
    → IsComplete snapshot start end
unfolding coverage
coverage-IsComplete snapshot start end h = ground arith

only_complete :
    (spans : List CoverageSpan)
    → has_status unrecoverable spans ≡ false
    → has_status unknown spans ≡ false
    → has_status pending spans ≡ false
    → All (λ s. s.status ≡ complete) spans
unfolding has_status
only_complete [] a b c = tt
only_complete (s ∷ spans) a b c =
    (ground arith, only_complete spans (ground arith) (ground arith) (ground arith))

-- If the ledger calls a range complete, then each time in it lies in a closed span that is
-- complete, and every span that overlaps the range is complete.
pub coverage_complete-Covers :
    (snapshot : CoverageSnapshot) (start end t : ℤ)
    → coverage snapshot start end ≡ ok complete
    → start ≤ℤ t
    → t <ℤ end
    → Any (λ s. Covers t s × (s.status ≡ complete)) snapshot.spans
      × All (λ s. overlaps start end s ≡ true → s.status ≡ complete) snapshot.spans
coverage_complete-Covers snapshot start end t h low high = (
  Any-imp (λ s. (Covers t s × (s.status ≡ complete)) × (overlaps start end s ≡ true)) _ (λ s p. p.0)
      snapshot.spans
      (Any-keep _ (overlaps start end) snapshot.spans (Any-All (Covers t) _ spans found sound)),
  All-of_keep _ (overlaps start end) snapshot.spans sound,
)
  where
    spans : List CoverageSpan
    spans = keep (overlaps start end) snapshot.spans

    c : IsComplete snapshot start end
    c = coverage-IsComplete snapshot start end h

    found : Any (Covers t) spans
    found =
        Any-sort_by (Covers t) (λ s. s.start_ns) spans
          (covered_until-Covers start t (sort_by (λ s. s.start_ns) spans) low
            (omega (arith, c.reached)))

    sound : All (λ s. s.status ≡ complete) spans
    sound = only_complete spans c.none_unrecoverable c.none_unknown c.none_pending
