-- ===== src/Ingestion/Stored/Limit.antt =====
-- src/scryntic/ingestion/sqlite_spool.py, `_decode_record`: what the limit on a payload decides.
use scryntic.Prelude.{
  ℕ, ◌≤◌, ◌≡◌, String, List, arith, false, length, ltb, Result, ok, err, ◌>>=◌, >>=-returns,
  >>-returns, refuse, value_error,
}
use scryntic.Domain.Raw.{RawEnvelope, RawRecord, checked_envelope}
use scryntic.Domain.Time.{time_quality, clock_sample}
use scryntic.Ingestion.Stored.{
  StoredRow, decode_record, stored_subject, stored_source_time, status_of, natural,
  optional_natural,
}

checked_envelope-limit :
    (sha256 : List ℕ → String) (m n : ℕ) (e envelope : RawEnvelope)
    → checked_envelope sha256 m e ≡ ok envelope
    → (length e.payload ≤ m) × (length e.payload ≤ n → checked_envelope sha256 n e ≡ ok envelope)
unfolding checked_envelope
checked_envelope-limit sha256 m n e envelope h =
    let (rest, fits) =
      >>-returns
        (refuse (ltb m (length e.payload))
          (value_error "Raw payload exceeds the local payload limit"))
        h in
    (
      ground arith,
      λ le. (let small : ltb n (length e.payload) ≡ false = ground arith in rw small rest),
    )

-- what two ways to go on share, they share after a call
under :
    {A B Q R : Type 0} (call : Result A) {f g : A → Result B} {b : B}
    → ((a : A) → f a ≡ ok b → Q × (R → g a ≡ ok b))
    → (call >>= f) ≡ ok b
    → Q × (R → (call >>= g) ≡ ok b)
under (ok a) k h = k a h
under (err e) k h = cc

-- A row that decodes has a payload within the limit, and decodes in the same way under any other
-- limit that its payload is within.
pub decode_record-limit :
    (sha256 : List ℕ → String) (m n : ℕ) (row : StoredRow) (r : RawRecord)
    → decode_record sha256 m row ≡ ok r
    → (length row.payload ≤ m) × (length row.payload ≤ n → decode_record sha256 n row ≡ ok r)
unfolding decode_record
decode_record-limit sha256 m n row r =
    under (stored_subject row.subject_type row.subject_first row.subject_second row.subject_third)
      λ subject. under (stored_source_time row.source_time_value row.source_time_unit) λ time.
        under (status_of row.quality_status) λ status.
          under (optional_natural row.quality_uncertainty_ns) λ uncertainty.
            under (optional_natural row.quality_evidence_age_ns) λ age.
              under (time_quality row.quality_epoch status row.quality_offset_ns uncertainty age)
                λ quality. under (natural row.receipt_monotonic_ns) λ monotonic.
                  under
                    (clock_sample row.receipt_wall_time_ns monotonic row.receipt_session_id quality)
                    λ receipt. under (optional_natural row.source_sequence) λ sequence h.
                      let (envelope, rest, made) = >>=-returns (checked_envelope sha256 m _) h in
                      let (fits, again) = checked_envelope-limit sha256 m n _ envelope made in
                      (fits, λ le. rw (again le) rest)
