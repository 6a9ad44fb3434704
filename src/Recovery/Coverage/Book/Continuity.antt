-- ===== src/Recovery/Coverage/Book/Continuity.antt =====
-- src/scryntic/recovery/coverage.py: a book is valid only along an unbroken run of sequences.
use scryntic.Prelude.{
  ◌≡◌, ◌∙◌, Bool, true, false, Option, none, some, List, [], ◌∷◌, arith, ok, refl, ap,
  if◌then◌else◌, inl, inr, ◌⊎◌, not,
}
use scryntic.Prelude.Action.{after}
use scryntic.Prelude.Int.{ℤ, pos, ◌+ℤ◌, eq_of_parts}
use scryntic.Domain.Time.{ClockSample}
use scryntic.Recovery.Coverage.Contracts.{checked_span}
use scryntic.Recovery.Coverage.Ledger.{Codec, Ledger, save, append_span, loss}
use scryntic.Recovery.Coverage.Book.{follow, delta_after, book_delta}

-- What a delta that was answered says of the ledger before and after it.
abbrev pub Answer : Bool → ℤ → Ledger → Ledger → Type 0
Answer true sequence l m =
    (l.snapshot.book_valid ≡ true)
    × (m.snapshot.book_valid ≡ true)
    × (m.snapshot.last_sequence ≡ some sequence)
    × ((last : ℤ) × (l.snapshot.last_sequence ≡ some last) × (sequence ≡ last +ℤ pos 1))
Answer false sequence l m = (m.snapshot.book_valid ≡ false) ⊎ (l.snapshot.last_sequence ≡ none)

follow-Answer :
    (codec : Codec) (last sequence : ℤ) (sample : ClockSample) (l : Ledger) (b : Bool)
    → l.snapshot.last_sequence ≡ some last
    → l.snapshot.book_valid ≡ true
    → (follow codec last sequence sample l).0 ≡ ok b
    → Answer b sequence l (follow codec last sequence sample l).1
unfolding follow loss append_span save after checked_span
follow-Answer codec last sequence sample l true known valid h =
    (valid, ground arith, ground arith, (last, known, eq_of_parts _ _ (ground arith)))
follow-Answer codec last sequence sample l false known valid h = inl (ground arith)

guarded-Answer :
    (codec : Codec) (valid : Bool) (last sequence : ℤ) (sample : ClockSample) (l : Ledger)
    (b : Bool)
    → l.snapshot.book_valid ≡ valid
    → l.snapshot.last_sequence ≡ some last
    → (if not valid then (ok false, l) else follow codec last sequence sample l).0 ≡ ok b
    → Answer b sequence l
        (if not valid then (ok false, l) else follow codec last sequence sample l).1
guarded-Answer codec true last sequence sample l b v known h =
    follow-Answer codec last sequence sample l b known v h
guarded-Answer codec false last sequence sample l true v known h = cc
guarded-Answer codec false last sequence sample l false v known h = inl v

delta_after-Answer :
    (codec : Codec) (o : Option ℤ) (sequence : ℤ) (sample : ClockSample) (l : Ledger) (b : Bool)
    → l.snapshot.last_sequence ≡ o
    → (delta_after codec o sequence sample l).0 ≡ ok b
    → Answer b sequence l (delta_after codec o sequence sample l).1
unfolding delta_after
delta_after-Answer codec none sequence sample l true known h = cc
delta_after-Answer codec none sequence sample l false known h = inr known
delta_after-Answer codec (some last) sequence sample l b known h =
    guarded-Answer codec l.snapshot.book_valid last sequence sample l b refl known h

-- A delta that is answered with true followed the last sequence of a valid book by exactly one, and
-- leaves the book valid at its own sequence. One answered with false leaves the book invalid, or
-- there was no last sequence.
pub book_delta-Answer :
    (codec : Codec) (sequence : ℤ) (sample : ClockSample) (l : Ledger) (b : Bool)
    → (book_delta codec sequence sample l).0 ≡ ok b
    → Answer b sequence l (book_delta codec sequence sample l).1
unfolding book_delta
book_delta-Answer codec sequence sample l b h =
    delta_after-Answer codec l.snapshot.last_sequence sequence sample l b refl h

-- each number is one more than the one before, from `last` on
abbrev pub Consecutive : ℤ → List (ℤ × ClockSample) → Type 0
Consecutive last [] = Unit
Consecutive last ((sequence, sample) ∷ deltas) =
    (sequence ≡ last +ℤ pos 1) × Consecutive sequence deltas

abbrev pub last_of : ℤ → List (ℤ × ClockSample) → ℤ
last_of last [] = last
last_of last ((sequence, sample) ∷ deltas) = last_of sequence deltas

module _ (codec : Codec) where
  -- every delta of the list, in order, is answered with true
  abbrev pub AllFollow : Ledger → List (ℤ × ClockSample) → Type 0
  AllFollow l [] = Unit
  AllFollow l ((sequence, sample) ∷ deltas) =
      ((book_delta codec sequence sample l).0 ≡ ok true)
      × AllFollow (book_delta codec sequence sample l).1 deltas

  -- the ledger that the deltas leave
  pub apply_deltas : List (ℤ × ClockSample) → Ledger → Ledger
  apply_deltas [] l = l
  apply_deltas ((sequence, sample) ∷ deltas) l =
      apply_deltas deltas (book_delta codec sequence sample l).1

  -- If every delta of a run is answered with true, then their sequences count on from the last one
  -- without a gap, and the book ends valid at the last of them.
  pub deltas-Consecutive :
      (deltas : List (ℤ × ClockSample)) (l : Ledger) (last : ℤ)
      → l.snapshot.book_valid ≡ true
      → l.snapshot.last_sequence ≡ some last
      → AllFollow l deltas
      → Consecutive last deltas
        × ((apply_deltas deltas l).snapshot.book_valid ≡ true)
        × ((apply_deltas deltas l).snapshot.last_sequence ≡ some (last_of last deltas))
  unfolding apply_deltas
  deltas-Consecutive [] l last valid known h = (tt, valid, known)
  deltas-Consecutive ((sequence, sample) ∷ deltas) l last valid known h =
      let (was, is, now, (last', known', next)) =
        book_delta-Answer codec sequence sample l true h.0 in
      let (rest, valid', last'') =
        deltas-Consecutive deltas (book_delta codec sequence sample l).1 sequence is now h.1 in
      let same : last' ≡ last = cc in ((next ∙ ap (λ z. z +ℤ pos 1) same, rest), valid', last'')
