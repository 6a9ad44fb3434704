-- ===== src/Recovery/Coverage/Contracts.antt =====
-- src/scryntic/recovery/coverage.py: the frozen dataclasses. The model keeps the checks of
-- `__post_init__` that a value built by the ledger can fail; the sizes of a snapshot's history are
-- among the invariants of Coverage/Ledger instead.
use scryntic.Prelude.{
  ℕ, String, Bool, true, false, ◌&&◌, Option, none, some, List, [], ltb, length, Result, ok,
  value_error, refuse, ◌>>◌, ◌≡◌, refl,
}
use scryntic.Prelude.Int.{ℤ, pos, leb_ℤ}
use scryntic.Prelude.Text.{str_eq, str_eq_iff}
use scryntic.Domain.Identity.{SubjectId, instrument, entity, same_subject}
use scryntic.Domain.Raw.{RawEnvelope}
use scryntic.Domain.Time.{ClockSample}
use scryntic.Domain.Validation.{identifier}
use scryntic.Ingestion.Metadata.{Bytes}

abbrev pub span_limit : ℕ
span_limit = 64

abbrev pub repair_candles : ℕ
repair_candles = 256

pub data Family : Type 0 where
  candle trade liquidation book periodic news onchain unknown_family : Family

pub data Recovery : Type 0 where
  backfill resnapshot coverage_loss : Recovery

pub record RecoveryStream : Type 0 where
  pub key : String
  pub source : String
  pub stream : String
  pub channel : String
  pub subject : Option SubjectId
  pub family : Family
  pub recovery : Recovery

pub record CandleEvidence : Type 0 where
  pub start_ns : ℤ
  pub interval_ns : ℕ
  pub finalized : Bool
  pub market_sha256 : Option String

pub record BookEvidence : Type 0 where
  pub sequence : ℤ
  pub is_snapshot : Bool

pub data Status : Type 0 where
  complete pending unknown unrecoverable : Status

pub record CoverageSpan : Type 0 where
  pub start_ns : ℤ
  pub end_ns : Option ℤ
  pub status : Status
  pub reason : String
  pub detected : ClockSample
  pub checkpoint_offset : ℤ
  pub first_sequence : Option ℤ
  pub last_sequence : Option ℤ
  pub cursor : Option Bytes
  pub repaired : List ℤ
  pub pages : ℤ
  pub attempts : ℤ

pub record CoverageSnapshot : Type 0 where
  pub active : Bool
  pub checkpoint_ns : ℤ
  pub raw_offset : ℤ
  pub last_start_ns : Option ℤ
  pub book_valid : Bool
  pub last_sequence : Option ℤ
  pub spans : List CoverageSpan
  pub unknown_since_ns : Option ℤ
  pub unknown_detected : Option ClockSample
  pub final_candles : List (ℤ × String)

-- `CoverageSnapshot(False, baseline_ns)`
abbrev pub baseline : ℤ → CoverageSnapshot
baseline baseline_ns = record {
  active = false;
  checkpoint_ns = baseline_ns;
  raw_offset = pos 0;
  last_start_ns = none;
  book_valid = false;
  last_sequence = none;
  spans = [];
  unknown_since_ns = none;
  unknown_detected = none;
  final_candles = [];
}

abbrev pub is_empty_range : ℤ → Option ℤ → Bool
is_empty_range start none = false
is_empty_range start (some end) = leb_ℤ end start

cursor_too_long : Option Bytes → Bool
cursor_too_long none = false
cursor_too_long (some cursor) = ltb 4096 (length cursor)

-- `CoverageSpan.__post_init__`
unfoldable pub checked_span : CoverageSpan → Result CoverageSpan
unfolding cursor_too_long
checked_span span = do
  refuse (is_empty_range span.start_ns span.end_ns) (value_error "Empty coverage span")
  identifier span.reason
  refuse (cursor_too_long span.cursor) (value_error "Invalid recovery cursor")
  refuse (ltb repair_candles (length span.repaired)) (value_error "Repair evidence exceeds limit")
  ok span

abbrev pub same_status : Status → Status → Bool
same_status complete complete = true
same_status pending pending = true
same_status unknown unknown = true
same_status unrecoverable unrecoverable = true
same_status _ _ = false

same_optional_subject : Option SubjectId → Option SubjectId → Bool
same_optional_subject none none = true
same_optional_subject (some a) (some b) = same_subject a b
same_optional_subject _ _ = false

-- `CoverageLedger.matches`
unfoldable pub matches : RecoveryStream → RawEnvelope → Bool
unfolding same_optional_subject
matches stream envelope =
    str_eq envelope.source stream.source
    && (str_eq envelope.stream stream.stream
        && (str_eq envelope.channel stream.channel
            && same_optional_subject envelope.subject stream.subject))

Family-discrete : Discrete Family
Family-discrete = hlevel

Recovery-discrete : Discrete Recovery
Recovery-discrete = hlevel

same_family : Family → Family → Bool
same_family a b = elim (Family-discrete a b) [ yes _ ↦ true | no _ ↦ false ]

same_recovery : Recovery → Recovery → Bool
same_recovery a b = elim (Recovery-discrete a b) [ yes _ ↦ true | no _ ↦ false ]

-- `==` on the JSON values of two streams
unfoldable pub same_stream : RecoveryStream → RecoveryStream → Bool
unfolding same_optional_subject same_family same_recovery Family-discrete Recovery-discrete
same_stream a b =
    str_eq a.key b.key
    && (str_eq a.source b.source
        && (str_eq a.stream b.stream
            && (str_eq a.channel b.channel
                && (same_optional_subject a.subject b.subject
                    && (same_family a.family b.family && same_recovery a.recovery b.recovery)))))

same_text : (s : String) → str_eq s s ≡ true
same_text s = (str_eq_iff s s).1 refl

same_subject_refl : (s : Option SubjectId) → same_optional_subject s s ≡ true
unfolding same_optional_subject same_subject
same_subject_refl none = refl
same_subject_refl (some (instrument i)) =
    simp (same_text i.venue, same_text i.category, same_text i.symbol)
same_subject_refl (some (entity e)) =
    simp (same_text e.kind, same_text e.namespace, same_text e.value)

same_family_refl : (f : Family) → same_family f f ≡ true
unfolding same_family
same_family_refl f =
    elim (Family-discrete f f) as (λ d. (elim d [ yes _ ↦ true | no _ ↦ false ]) ≡ true) [
      | yes _ ↦ refl
      | no n ↦ absurd (n refl)
    ]

same_recovery_refl : (r : Recovery) → same_recovery r r ≡ true
unfolding same_recovery
same_recovery_refl f =
    elim (Recovery-discrete f f) as (λ d. (elim d [ yes _ ↦ true | no _ ↦ false ]) ≡ true) [
      | yes _ ↦ refl
      | no n ↦ absurd (n refl)
    ]

pub same_stream_refl : (s : RecoveryStream) → same_stream s s ≡ true
unfolding same_stream
same_stream_refl s = simp (
  same_text s.key,
  same_text s.source,
  same_text s.stream,
  same_text s.channel,
  same_subject_refl s.subject,
  same_family_refl s.family,
  same_recovery_refl s.recovery,
)
