-- ===== src/Ingestion/Stored/RoundTrip.antt =====
-- src/scryntic/ingestion/sqlite_spool.py: what the columns give back.
use scryntic.Prelude.{ℕ, String, Option, none, some, List, ok, ◌≡◌, refl}
use scryntic.Prelude.Text.{str_eq_iff}
use scryntic.Domain.Identity.{SubjectId, instrument, entity, checked_subject}
use scryntic.Domain.Time.{
  SourceTime, TimeUnit, second, millisecond, microsecond, nanosecond, QualityStatus, unknown,
  degraded, healthy, time_quality, clock_sample,
}
use scryntic.Domain.Raw.{RawEnvelope, IngestionId, ingestion_id, checked_envelope}
use scryntic.Ingestion.Stored.{
  stored_row, decode_record, stored_subject, stored_source_time, status_of, unit_of, subject_values,
  time_value, time_unit, optional_pos, optional_natural, status_text, unit_text,
}

abbrev pub IsSubject : Option SubjectId → Type 0
IsSubject none = Unit
IsSubject (some s) = checked_subject s ≡ ok s

-- An envelope that the constructors made.
pub record IsEnvelope (sha256 : List ℕ → String) (max_payload : ℕ) (e : RawEnvelope) : Type 0 where
  pub subject_made : IsSubject e.subject
  pub quality_made :
      time_quality e.receipt.quality.epoch e.receipt.quality.status e.receipt.quality.offset_ns
        e.receipt.quality.uncertainty_ns e.receipt.quality.evidence_age_ns
      ≡ ok e.receipt.quality
  pub receipt_made :
      clock_sample e.receipt.wall_time_ns e.receipt.monotonic_ns e.receipt.session_id
        e.receipt.quality
      ≡ ok e.receipt
  pub envelope_made : checked_envelope sha256 max_payload e ≡ ok e

subject_lem :
    (s : Option SubjectId)
    → IsSubject s
    → stored_subject
        (subject_values s).type
        (subject_values s).first
        (subject_values s).second
        (subject_values s).third
      ≡ ok s
unfolding stored_subject checked_subject
subject_lem none h = refl
subject_lem (some (instrument i)) h = simp (h)
subject_lem (some (entity e)) h = simp (h)

unit_lem : (u : TimeUnit) → unit_of (unit_text u) ≡ ok u
unfolding unit_of
unit_lem second = refl
unit_lem millisecond = refl
unit_lem microsecond = refl
unit_lem nanosecond = refl

status_lem : (q : QualityStatus) → status_of (status_text q) ≡ ok q
unfolding status_of
status_lem unknown = refl
status_lem degraded = refl
status_lem healthy = refl

source_time_lem : (t : Option SourceTime) → stored_source_time (time_value t) (time_unit t) ≡ ok t
unfolding stored_source_time
source_time_lem none = refl
source_time_lem (some t) = simp (unit_lem t.unit)

natural_lem : (n : Option ℕ) → optional_natural (optional_pos n) ≡ ok n
natural_lem none = refl
natural_lem (some n) = refl

-- A record whose envelope, receipt, quality and subject are ones that the constructors make comes
-- back from the columns of its row as it was.
pub decode_record-stored_row :
    (sha256 : List ℕ → String) (max_payload : ℕ) (producer epoch : String) (offset : ℕ)
    (e : RawEnvelope) (id : IngestionId)
    → IsEnvelope sha256 max_payload e
    → ingestion_id producer epoch offset ≡ ok id
    → decode_record sha256 max_payload (stored_row producer epoch offset e)
      ≡ ok (record { identity = id; envelope = e })
unfolding decode_record stored_row
decode_record-stored_row sha256 max_payload producer epoch offset e id h made =
    rw (subject_lem e.subject h.subject_made) (
      rw (source_time_lem e.source_time) (
        rw (status_lem e.receipt.quality.status) (
          rw (natural_lem e.receipt.quality.uncertainty_ns) (
            rw (natural_lem e.receipt.quality.evidence_age_ns) (
              rw h.quality_made (
                rw h.receipt_made (
                  rw (natural_lem e.source_sequence) (
                    rw h.envelope_made (
                      rw ((str_eq_iff e.content_sha256 e.content_sha256).1 refl)
                        (rw made refl))))))))))
