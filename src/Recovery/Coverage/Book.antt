-- ===== src/Recovery/Coverage/Book.antt =====
-- src/scryntic/recovery/coverage.py: the order book's snapshots and deltas.
pub mod Continuity
use scryntic.Prelude.{
  Bool, true, false, not, ◌||◌, Option, none, some, if◌then◌else◌, ok, err, value_error,
}
use scryntic.Prelude.Action.{◌>>=◌, ◌>>◌, lift}
use scryntic.Prelude.Int.{ℤ, pos, ◌+ℤ◌, eq_ℤ}
use scryntic.Domain.Raw.{RawRecord}
use scryntic.Domain.Time.{ClockSample}
use scryntic.Recovery.Coverage.Contracts.{BookEvidence, Family, book}
use scryntic.Recovery.Coverage.Ledger.{Codec, Ledger, LedgerAction, save, loss}
use scryntic.Recovery.Coverage.Observe.{observed}

is_book : Family → Bool
is_book book = true
is_book _ = false

module _ (codec : Codec) where
  unfoldable pub resnapshot : ℤ → LedgerAction (Unit {0})
  unfolding is_book
  resnapshot sequence l =
      if is_book l.stream.family
      then save codec (record l.snapshot { book_valid = true; last_sequence = some sequence }) false
          l
      else (err (value_error "Resnapshot requires book family"), l)

  -- `book_delta` after a known sequence of a valid book
  unfoldable pub follow : ℤ → ℤ → ClockSample → LedgerAction Bool
  follow last sequence sample l =
      if eq_ℤ sequence (last +ℤ pos 1)
      then (save codec (record l.snapshot { last_sequence = some sequence }) false
            >> lift (ok true))
          l
      else (loss codec l.snapshot.checkpoint_ns none "book-sequence-gap" sample
              (some (last +ℤ pos 1)) (some sequence)
            >> lift (ok false))
          l

  -- `book_delta` with the value of `state.last_sequence`
  unfoldable pub delta_after : Option ℤ → ℤ → ClockSample → LedgerAction Bool
  delta_after none sequence sample l = (ok false, l)
  delta_after (some last) sequence sample l =
      if not l.snapshot.book_valid then (ok false, l) else follow last sequence sample l

  unfoldable pub book_delta : ℤ → ClockSample → LedgerAction Bool
  book_delta sequence sample l = delta_after l.snapshot.last_sequence sequence sample l

  book_step : RawRecord → BookEvidence → LedgerAction Bool
  book_step raw evidence l =
      if evidence.is_snapshot
      then (resnapshot evidence.sequence >> lift (ok true)) l
      else book_delta evidence.sequence raw.envelope.receipt l

  unfoldable pub book_observed : RawRecord → BookEvidence → LedgerAction Bool
  unfolding book_step
  book_observed raw evidence = observed codec raw none >> book_step raw evidence
