-- ===== src/Recovery/Coverage/Ledger/Extends.antt =====
-- src/scryntic/recovery/coverage.py: what every method keeps, whether it returns or raises, with
-- one rule for each way to build a method.
use scryntic.Prelude.{
  ℕ, ◌≤◌, ◌≡◌, ◌∙◌, Bool, true, false, Option, none, some, [], ◌∷◌, ◌++◌, arith, length, Result, ok,
  err, length-append, String, refl, ◌-◌, ◌<◌, refuse, leb, ingestion_error, map,
}
use scryntic.Prelude.Action.{after}
use scryntic.Prelude.Int.{ℤ}
use scryntic.Domain.Time.{ClockSample}
use scryntic.Prelude.Text.{str_eq_iff}
use scryntic.Ingestion.Metadata.{Bytes, row, recovery_put}
use scryntic.Ingestion.Metadata.Rows.{row-upsert}
use scryntic.Recovery.Coverage.Contracts.{CoverageSpan, CoverageSnapshot, span_limit, unknown}
use scryntic.Recovery.Coverage.Ledger.{
  Codec, Ledger, LedgerAction, save, begin, finish, loss, resumed, started, restart_span,
  append_span,
}

-- a span without its end and its status
abbrev pub cause : CoverageSpan → CoverageSpan
cause span = record span { end_ns = none; status = unknown }

-- From one state of a ledger to a later one.
pub record Extends (l l' : Ledger) : Type 0 where
  pub stream_kept : l'.stream ≡ l.stream
  pub failed_stays : l.failed ≡ true → l'.failed ≡ true
  pub frozen : l.failed ≡ true → l'.spool ≡ l.spool
  pub invalid :
      (l.failed ≡ true → l.snapshot.book_valid ≡ false)
      → l'.failed ≡ true
      → l'.snapshot.book_valid ≡ false
  pub causes_kept : l.failed ≡ true → map cause l'.snapshot.spans ≡ map cause l.snapshot.spans
  pub spans_kept : length l.snapshot.spans ≤ length l'.snapshot.spans
  pub spans_bounded : length l.snapshot.spans ≤ span_limit → length l'.snapshot.spans ≤ span_limit
  pub row_kept :
      row l.stream.key l.spool.rows ≡ l.stored → row l'.stream.key l'.spool.rows ≡ l'.stored

pub Extends-refl : (l : Ledger) → Extends l l
Extends-refl l = record {
  stream_kept = refl;
  failed_stays = λ f. f;
  frozen = λ f. refl;
  causes_kept = λ f. refl;
  invalid = λ h. h;
  spans_kept = omega arith;
  spans_bounded = λ h. h;
  row_kept = λ h. h;
}

pub Extends-trans : {l m n : Ledger} → Extends l m → Extends m n → Extends l n
Extends-trans h k = record {
  stream_kept = cc (h.stream_kept, k.stream_kept);
  failed_stays = λ f. k.failed_stays (h.failed_stays f);
  frozen = λ f. k.frozen (h.failed_stays f) ∙ h.frozen f;
  causes_kept = λ f. k.causes_kept (h.failed_stays f) ∙ h.causes_kept f;
  invalid = λ i. k.invalid (h.invalid i);
  spans_kept = omega (arith, h.spans_kept, k.spans_kept);
  spans_bounded = λ b. k.spans_bounded (h.spans_bounded b);
  row_kept = λ r. k.row_kept (h.row_kept r);
}

-- The method extends every ledger that it is called on.
abbrev pub Keeps : {A : Type 0} → LedgerAction A → Type 0
Keeps m = (l : Ledger) → Extends l (m l).1

module _ {A B : Type 0} where
  pub after-Extends :
      {l : Ledger} (r : Result A × Ledger) (f : A → LedgerAction B)
      → Extends l r.1
      → ((a : A) → r.0 ≡ ok a → Extends r.1 (f a r.1).1)
      → Extends l (after r f).1
  unfolding after
  after-Extends (ok a, m) f h k = Extends-trans h (k a refl)
  after-Extends (err e, m) f h k = h

-- the row that a successful put leaves
put_row :
    (codec : Codec) (snapshot : CoverageSnapshot) (restart : Bool) (l : Ledger)
    → row l.stream.key l.spool.rows ≡ l.stored
    → row (save codec snapshot restart l).1.stream.key (save codec snapshot restart l).1.spool.rows
      ≡ (save codec snapshot restart l).1.stored
unfolding save recovery_put
put_row codec snapshot restart l h = ground (
  arith,
  row-upsert l.stream.key l.stream.key
      (codec.dumps (record { version = 1; stream = l.stream; state = snapshot })) l.spool.rows,
  str_eq_iff l.stream.key l.stream.key,
)

pub save-Extends :
    (codec : Codec) (snapshot : CoverageSnapshot) (restart : Bool) (l : Ledger)
    → length l.snapshot.spans ≤ length snapshot.spans
    → (length l.snapshot.spans ≤ span_limit → length snapshot.spans ≤ span_limit)
    → Extends l (save codec snapshot restart l).1
unfolding save
save-Extends codec snapshot restart l grows bounded = record {
  stream_kept = ground arith;
  failed_stays = ground arith;
  frozen = ground arith;
  causes_kept = ground arith;
  invalid = ground arith;
  spans_kept = ground arith;
  spans_bounded = ground arith;
  row_kept = λ h. put_row codec snapshot restart l h;
}

length-started :
    (stored : Option Bytes) (state : CoverageSnapshot) (sample : ClockSample)
    → (length state.spans ≤ length (started stored state sample).spans)
      × (length state.spans ≤ span_limit → length (started stored state sample).spans ≤ span_limit)
unfolding started resumed
length-started none state sample = ground arith
length-started (some value) state sample =
    ground (arith, length-append state.spans (restart_span state sample ∷ []))

pub begin-Extends : (codec : Codec) (sample : ClockSample) → Keeps (begin codec sample)
unfolding begin
begin-Extends codec sample l =
    let (grows, bounded) = length-started l.stored l.snapshot sample in
    save-Extends codec _ true l grows bounded

pub finish-Extends : (codec : Codec) → Keeps (finish codec)
unfolding finish
finish-Extends codec l = save-Extends codec _ false l (omega arith) (λ h. h)

-- "Invalidate in memory before attempting persistence"
invalidate-Extends :
    (l : Ledger) → Extends l (record l { snapshot = record l.snapshot { book_valid = false } })
invalidate-Extends l = record {
  stream_kept = refl;
  failed_stays = λ f. f;
  frozen = λ f. refl;
  causes_kept = λ f. refl;
  invalid = λ h f. refl;
  spans_kept = omega arith;
  spans_bounded = λ h. h;
  row_kept = λ h. h;
}

room-lt :
    (n : ℕ) {u : Unit {0}}
    → refuse (leb (span_limit - 1) n) (ingestion_error "Coverage history quota reached") ≡ ok u
    → n < span_limit - 1
room-lt n h = ground arith

append_span-Extends :
    (codec : Codec) (span : CoverageSpan) (l : Ledger)
    → length l.snapshot.spans < span_limit - 1
    → Extends l (append_span codec span l).1
unfolding append_span
append_span-Extends codec span l room =
    let longer = length-append l.snapshot.spans (span ∷ []) in
    save-Extends codec (record l.snapshot { spans = l.snapshot.spans ++ span ∷ [] }) false l
      (omega (arith, longer)) (λ h. omega (arith, longer))

pub loss-Extends :
    (codec : Codec) (start : ℤ) (end : Option ℤ) (reason : String) (sample : ClockSample)
    (first last : Option ℤ)
    → Keeps (loss codec start end reason sample first last)
unfolding loss
loss-Extends codec start end reason sample first last l =
    after-Extends _ _ (Extends-refl l) λ span made. after-Extends _ _ (Extends-refl l) λ u room.
      Extends-trans (invalidate-Extends l) (append_span-Extends codec _ _ (room-lt _ room))
