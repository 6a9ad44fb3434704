-- ===== src/Recovery/Coverage/Query/Exact.antt =====
-- src/scryntic/recovery/coverage.py: `CoverageLedger.coverage` answers "complete" whenever it may.
use scryntic.Prelude.{
  ◌≡◌, ◌≢◌, true, false, none, some, List, [], ◌∷◌, arith, ok, keep, Any, keep-Any, ◌⊎◌, inl, inr,
  Bool-cases, All, All-imp, All-keep, Option-cases, subst,
}
use scryntic.Prelude.Int.{ℤ, ltb_ℤ, leb_ℤ, max_ℤ, ◌≤ℤ◌, ◌<ℤ◌}
use scryntic.Prelude.Sort.{sort_by, insert_by}
use scryntic.Recovery.Coverage.Contracts.{
  CoverageSpan, CoverageSnapshot, complete, pending, unknown, unrecoverable,
}
use scryntic.Recovery.Coverage.Query.{overlaps, covered_until, coverage, has_status, unknown_before}
use scryntic.Recovery.Coverage.Query.Sound.{Covers, covered_until-step}

abbrev Starts : ℤ → CoverageSpan → Type 0
Starts t s = t ≤ℤ s.start_ns

abbrev IsSorted : List CoverageSpan → Type 0
IsSorted [] = Unit
IsSorted (x ∷ xs) = All (Starts x.start_ns) xs × IsSorted xs

abbrev by_start : CoverageSpan → ℤ
by_start s = s.start_ns

module _ (P : CoverageSpan → Type 0) where
  All-insert_by :
      (x : CoverageSpan) (xs : List CoverageSpan) → P x → All P xs → All P (insert_by by_start x xs)
  unfolding insert_by
  All-insert_by x [] p h = (p, tt)
  All-insert_by x (y ∷ ys) p h = elim (Bool-cases (leb_ℤ x.start_ns y.start_ns)) [
    | inl t ↦ rw t (p, h)
    | inr f ↦ rw f (h.0, All-insert_by x ys p h.1)
  ]

  All-sort_by : (xs : List CoverageSpan) → All P xs → All P (sort_by by_start xs)
  unfolding sort_by
  All-sort_by [] h = tt
  All-sort_by (x ∷ xs) h = All-insert_by x (sort_by by_start xs) h.0 (All-sort_by xs h.1)

  insert_by-Any :
      (x : CoverageSpan) (xs : List CoverageSpan) → P x ⊎ Any P xs → Any P (insert_by by_start x xs)
  unfolding insert_by
  insert_by-Any x [] h = h
  insert_by-Any x (y ∷ ys) h = elim (Bool-cases (leb_ℤ x.start_ns y.start_ns)) [
    | inl t ↦ rw t h
    | inr f ↦ rw f (elim h [
      | inl a ↦ inr (insert_by-Any x ys (inl a))
      | inr (inl b) ↦ inl b
      | inr (inr c) ↦ inr (insert_by-Any x ys (inr c))
    ])
  ]

  sort_by-Any : (xs : List CoverageSpan) → Any P xs → Any P (sort_by by_start xs)
  unfolding sort_by
  sort_by-Any [] h = h
  sort_by-Any (x ∷ xs) (inl h) = insert_by-Any x (sort_by by_start xs) (inl h)
  sort_by-Any (x ∷ xs) (inr h) = insert_by-Any x (sort_by by_start xs) (inr (sort_by-Any xs h))

insert_by-IsSorted :
    (x : CoverageSpan) (xs : List CoverageSpan) → IsSorted xs → IsSorted (insert_by by_start x xs)
unfolding insert_by
insert_by-IsSorted x [] h = (tt, tt)
insert_by-IsSorted x (y ∷ ys) h = elim (Bool-cases (leb_ℤ x.start_ns y.start_ns)) [
  | inl t ↦
      let le : x.start_ns ≤ℤ y.start_ns = ground arith in
      rw t ((le, All-imp (λ z k. omega arith) ys h.0), h)
  | inr f ↦
      let ge : y.start_ns ≤ℤ x.start_ns = ground arith in
      rw f (All-insert_by (Starts y.start_ns) x ys ge h.0, insert_by-IsSorted x ys h.1)
]

sort_by-IsSorted : (xs : List CoverageSpan) → IsSorted (sort_by by_start xs)
unfolding sort_by
sort_by-IsSorted [] = tt
sort_by-IsSorted (x ∷ xs) = insert_by-IsSorted x (sort_by by_start xs) (sort_by-IsSorted xs)

abbrev IsClosed : CoverageSpan → Type 0
IsClosed s = s.end_ns ≢ none

le-covered_until : (until : ℤ) (spans : List CoverageSpan) → until ≤ℤ covered_until until spans
unfolding covered_until
le-covered_until until [] = omega arith
le-covered_until until (span ∷ spans) = elim (Option-cases span.end_ns) [
  | inl unclosed ↦ ground arith
  | inr (end, closed) ↦ ground (arith, le-covered_until (max_ℤ until end) spans)
]

starts_later :
    (t : ℤ) (spans : List CoverageSpan)
    → All (λ s. t <ℤ s.start_ns) spans
    → Any (Covers t) spans
    → ⊥
starts_later t [] h k = k
starts_later t (s ∷ spans) h (inl (end, e, low, high)) = omega arith
starts_later t (s ∷ spans) h (inr k) = starts_later t spans h.1 k

Covers-before : (w end : ℤ) (s : CoverageSpan) → s.end_ns ≡ some end → end ≤ℤ w → Covers w s → ⊥
Covers-before w end s e late (end', e', low, high) = ground arith

-- no closed span of a sorted list covers the time at which the loop stopped
covered_until-gap :
    (until : ℤ) (spans : List CoverageSpan)
    → IsSorted spans
    → All IsClosed spans
    → Any (Covers (covered_until until spans)) spans
    → ⊥
covered_until-gap until [] sorted closed h = h
covered_until-gap until (span ∷ spans) sorted closed h = elim (Option-cases span.end_ns) [
  | inl unclosed ↦ absurd (closed.0 unclosed)
  | inr (end, e) ↦
      let step = covered_until-step until end span spans e in
      elim (Bool-cases (ltb_ℤ until span.start_ns)) [
        | inl early ↦
            let stops : covered_until until (span ∷ spans) ≡ until = ground arith in
            let first : until <ℤ span.start_ns = ground arith in
            starts_later until (span ∷ spans) (first, All-imp (λ z k. omega arith) spans sorted.0)
              (subst (λ w. Any (Covers w) (span ∷ spans)) stops h)
        | inr on ↦
            let next = covered_until (max_ℤ until end) spans in
            let goes : covered_until until (span ∷ spans) ≡ next = ground arith in
            let later : end ≤ℤ next = ground (arith, le-covered_until (max_ℤ until end) spans) in
            let k : Covers next span ⊎ Any (Covers next) spans =
              subst (λ w. Any (Covers w) (span ∷ spans)) goes h in
            elim k [
              | inl here ↦ Covers-before next end span e later here
              | inr there ↦ covered_until-gap (max_ℤ until end) spans sorted.1 closed.1 there
            ]
      ]
]

All-complete :
    (spans : List CoverageSpan)
    → All (λ s. s.status ≡ complete) spans
    → (has_status unrecoverable spans ≡ false)
      × (has_status unknown spans ≡ false)
      × (has_status pending spans ≡ false)
unfolding has_status
All-complete [] h = ground arith
All-complete (s ∷ spans) h = ground (arith, All-complete spans h.1)

coverage-answer :
    (snapshot : CoverageSnapshot) (start end : ℤ)
    → let spans = keep (overlaps start end) snapshot.spans in
      start <ℤ end
      → unknown_before snapshot.unknown_since_ns end ≡ false
      → has_status unrecoverable spans ≡ false
      → has_status unknown spans ≡ false
      → has_status pending spans ≡ false
      → end ≤ℤ covered_until start (sort_by by_start spans)
      → coverage snapshot start end ≡ ok complete
unfolding coverage
coverage-answer snapshot start end o u a b c r = ground arith

-- If every span that overlaps a range is closed and complete, every time of the range lies in such
-- a span, and no uncertainty is recorded from before its end, then the ledger calls it complete.
pub coverage_of_complete :
    (snapshot : CoverageSnapshot) (start end : ℤ)
    → start <ℤ end
    → unknown_before snapshot.unknown_since_ns end ≡ false
    → All (λ s. overlaps start end s ≡ true → (s.status ≡ complete) × IsClosed s) snapshot.spans
    → ((t : ℤ)
        → start ≤ℤ t
        → t <ℤ end
        → Any (λ s. Covers t s × (overlaps start end s ≡ true)) snapshot.spans)
    → coverage snapshot start end ≡ ok complete
coverage_of_complete snapshot start end order certain good covered =
    let spans = keep (overlaps start end) snapshot.spans in
    let kept = All-keep _ (overlaps start end) snapshot.spans good in
    let (a, b, c) = All-complete spans (All-imp (λ s k. k.0) spans kept) in
    let sorted = sort_by by_start spans in
    let stop = covered_until start sorted in
    coverage-answer snapshot start end order certain a b c (elim (Bool-cases (leb_ℤ end stop)) [
      | inl done ↦ ground arith
      | inr short ↦
          let low : start ≤ℤ stop = le-covered_until start sorted in
          absurd (
            covered_until-gap start sorted (sort_by-IsSorted spans)
              (All-sort_by IsClosed spans (All-imp (λ s k. k.1) spans kept))
              (sort_by-Any (Covers stop) spans (
                keep-Any (Covers stop) (overlaps start end) snapshot.spans
                  (covered stop low (ground arith)))))
    ])
