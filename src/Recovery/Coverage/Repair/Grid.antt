-- ===== src/Recovery/Coverage/Repair/Grid.antt =====
-- src/scryntic/recovery/coverage.py, `repair_page`: a span is complete when every candle of its grid
-- has been proven, and no sooner.
use scryntic.Prelude.{
  ℕ, ◌*◌, ◌/◌, ◌≤◌, ◌≡◌, ◌∙◌, Bool, true, Option, List, [], ◌∷◌, ◌++◌, arith, ok, refl, sym, subst,
  ◌⊎◌, inl, inr, ◌↔◌, Any, All, All-imp, keep, Bool-cases,
}
use scryntic.Prelude.Int.{ℤ, pos_part, ◌-ℤ◌, eq_ℤ, eq_of_parts, ltb_ℤ}
use scryntic.Prelude.Sort.{sorted_set, insert_new}
use scryntic.Ingestion.Metadata.{Bytes}
use scryntic.Recovery.Coverage.Contracts.{CoverageSpan, complete, repair_candles, checked_span}
use scryntic.Recovery.Coverage.Repair.{grid, same_starts, within, proven_starts, repaired_span}

abbrev pub IsIn : ℤ → List ℤ → Type 0
IsIn t = Any (λ s. s ≡ t)

same_starts-eq : (a b : List ℤ) → same_starts a b ≡ true → a ≡ b
unfolding same_starts
same_starts-eq [] [] h = refl
same_starts-eq [] (b ∷ bs) h = cc
same_starts-eq (a ∷ as') [] h = cc
same_starts-eq (a ∷ as') (b ∷ bs) h =
    let e : a ≡ b = eq_of_parts a b (ground arith) in
    let es : as' ≡ bs = same_starts-eq as' bs (ground arith) in cc

same_starts_refl : (a : List ℤ) → same_starts a a ≡ true
unfolding same_starts
same_starts_refl [] = refl
same_starts_refl (a ∷ as') = ground (arith, same_starts_refl as')

IsIn-insert_new : (t x : ℤ) (xs : List ℤ) → IsIn t (insert_new x xs) → IsIn t (x ∷ xs)
unfolding insert_new
IsIn-insert_new t x [] h = h
IsIn-insert_new t x (y ∷ ys) h = elim (Bool-cases (ltb_ℤ x y)) [
  | inl less ↦ rw less at h
  | inr more ↦ elim (Bool-cases (eq_ℤ x y)) [
    | inl same ↦ inr (rw (more, same) at h)
    | inr other ↦
        (let k : (y ≡ t) ⊎ IsIn t (insert_new x ys) = rw (more, other) at h in
          elim k [
            | inl e ↦ inr (inl e)
            | inr r ↦ elim (IsIn-insert_new t x ys r) [ inl e ↦ inl e | inr s ↦ inr (inr s) ]
          ])
  ]
]

IsIn-sorted_set : (t : ℤ) (xs : List ℤ) → IsIn t (sorted_set xs) → IsIn t xs
unfolding sorted_set
IsIn-sorted_set t [] h = h
IsIn-sorted_set t (x ∷ xs) h = elim (IsIn-insert_new t x (sorted_set xs) h) [
  | inl e ↦ inl e
  | inr r ↦ inr (IsIn-sorted_set t xs r)
]

IsIn-append : (t : ℤ) (xs ys : List ℤ) → IsIn t (xs ++ ys) → IsIn t xs ⊎ IsIn t ys
IsIn-append t [] ys h = inr h
IsIn-append t (x ∷ xs) ys (inl h) = inl (inl h)
IsIn-append t (x ∷ xs) ys (inr h) = elim (IsIn-append t xs ys h) [
  | inl a ↦ inl (inr a)
  | inr b ↦ inr b
]

IsIn-keep : (t : ℤ) (p : ℤ → Bool) (xs : List ℤ) → IsIn t (keep p xs) → IsIn t xs
IsIn-keep t p [] h = h
IsIn-keep t p (x ∷ xs) h = elim (Bool-cases (p x)) [
  | inl y ↦
      (let k : (x ≡ t) ⊎ IsIn t (keep p xs) = rw y at h in
        elim k [ inl e ↦ inl e | inr r ↦ inr (IsIn-keep t p xs r) ])
  | inr n ↦ inr (IsIn-keep t p xs (rw n at h))
]

-- what is proven was proven before or stands in the page
proven_starts-IsIn :
    (span : CoverageSpan) (end t : ℤ) (starts : List ℤ)
    → IsIn t (proven_starts span end starts)
    → IsIn t span.repaired ⊎ IsIn t starts
unfolding proven_starts
proven_starts-IsIn span end t starts h =
    elim (IsIn-append t span.repaired _ (IsIn-sorted_set t _ h)) [
      | inl a ↦ inl a
      | inr b ↦ inr (IsIn-keep t (within span.start_ns end) starts b)
    ]

repaired_span-fields :
    (span : CoverageSpan) (end : ℤ) (starts : List ℤ) (cursor : Option Bytes) (interval : ℕ)
    (exhausted : Bool) (updated : CoverageSpan)
    → repaired_span span end starts cursor interval exhausted ≡ ok updated
    → let count = pos_part (end -ℤ span.start_ns) / interval in
      (count * interval ≡ pos_part (end -ℤ span.start_ns))
      × (count ≤ repair_candles)
      × (updated.repaired ≡ proven_starts span end starts)
      × ((updated.status ≡ complete) ↔ (
          same_starts (proven_starts span end starts) (grid span.start_ns count interval) ≡ true))
unfolding repaired_span checked_span
repaired_span-fields span end starts cursor interval exhausted updated h =
    (ground arith, ground arith, ground arith, (λ c. ground arith, λ c. ground arith))

All-IsIn_self : (xs : List ℤ) → All (λ t. IsIn t xs) xs
All-IsIn_self [] = tt
All-IsIn_self (x ∷ xs) = (inl refl, All-imp (λ t h. inr h) xs (All-IsIn_self xs))

-- A page that is accepted makes the span complete exactly when what is proven is the whole grid of
-- the span, and the grid fills the span. Where it does, each start of the grid was proven before or
-- came with the page.
pub repaired_span-complete :
    (span : CoverageSpan) (end : ℤ) (starts : List ℤ) (cursor : Option Bytes) (interval : ℕ)
    (exhausted : Bool) (updated : CoverageSpan)
    → repaired_span span end starts cursor interval exhausted ≡ ok updated
    → let count = pos_part (end -ℤ span.start_ns) / interval in
      (count * interval ≡ pos_part (end -ℤ span.start_ns))
      × ((updated.status ≡ complete) ↔ (updated.repaired ≡ grid span.start_ns count interval))
      × (updated.status ≡ complete
          → All (λ t. IsIn t span.repaired ⊎ IsIn t starts) (grid span.start_ns count interval))
repaired_span-complete span end starts cursor interval exhausted updated h =
    let (fills, few, proven, done) =
      repaired_span-fields span end starts cursor interval exhausted updated h in
    let points = grid span.start_ns (pos_part (end -ℤ span.start_ns) / interval) interval in
    let forward : updated.status ≡ complete → updated.repaired ≡ points =
      λ c. proven ∙ same_starts-eq _ _ (done.0 c) in
    let backward : updated.repaired ≡ points → updated.status ≡ complete = λ e.
      done.1
        (subst (λ x. same_starts x points ≡ true) (sym e ∙ proven) (same_starts_refl points)) in
    (
      fills,
      (forward, backward),
      λ c.
          All-imp (λ t k. proven_starts-IsIn span end t starts k) points
            (subst (λ x. All (λ t. IsIn t x) points) (sym (forward c) ∙ proven)
              (All-IsIn_self points)),
    )
