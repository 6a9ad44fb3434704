-- ===== src/Normalization/Runner/Reading.antt =====
-- src/scryntic/normalization/runner.py: the repeated reading ends, with every record of the spool.
use scryntic.Prelude.{
  ℕ, suc, ◌<◌, ◌≡◌, ◌∙◌, String, false, Option, none, some, List, [], ◌∷◌, ◌++◌, arith, All, ok,
  refl, sym, ap, subst, >>=-returns, >>-returns, require, ok_same, value_error, length, leb, keep,
}
use scryntic.Prelude.Text.{str_eq, str_eq_iff}
use scryntic.Domain.Raw.{RawRecord, IngestionId, ingestion_id, checked_envelope}
use scryntic.Domain.Validation.{identifier}
use scryntic.Domain.Time.{time_quality, clock_sample}
use scryntic.Ingestion.Stored.{
  StoredRow, decode_record, stored_subject, stored_source_time, status_of, natural,
  optional_natural,
}
use scryntic.Ingestion.Intake.{
  World, Intake, submit, read, read_as, decoded, page, is_after, records_after,
}
use scryntic.Ingestion.Intake.Growth.{
  IsAscending, keep-IsAscending, IsAscending-append, append_assoc, append_nil, IsOrdered,
}
use scryntic.Ingestion.Intake.Durable.{selected_first, decoded-All}
use scryntic.Normalization.Runner.{
  read_next, read_all, read_on, offset_of, out_of_order, against_barrier, read_or_fail,
}

ingestion_id-fields :
    (producer epoch : String) (offset : ℕ) (id : IngestionId)
    → ingestion_id producer epoch offset ≡ ok id
    → (id.offset ≡ offset) × (id.producer ≡ producer)
unfolding ingestion_id
ingestion_id-fields producer epoch offset id h =
    let (h1, a) = >>-returns (identifier producer) h in
    let (h2, b) = >>-returns (identifier epoch) h1 in
    let same = ok_same _ id h2 in
    (ap (λ (x : IngestionId). x.offset) (sym same), ap (λ (x : IngestionId). x.producer) (sym same))

module _ (sha256 : List ℕ → String) where
  decode_record-identity :
      (max_payload : ℕ) (row : StoredRow) (r : RawRecord)
      → decode_record sha256 max_payload row ≡ ok r
      → (r.identity.offset ≡ row.offset) × (r.identity.producer ≡ row.producer)
  unfolding decode_record
  decode_record-identity max_payload row r h =
      let (subject, h1, a) =
        >>=-returns
          (stored_subject row.subject_type row.subject_first row.subject_second row.subject_third)
          h in
      let (time, h2, b) =
        >>=-returns (stored_source_time row.source_time_value row.source_time_unit) h1 in
      let (status, h3, c) = >>=-returns (status_of row.quality_status) h2 in
      let (uncertainty, h4, d) = >>=-returns (optional_natural row.quality_uncertainty_ns) h3 in
      let (age, h5, e) = >>=-returns (optional_natural row.quality_evidence_age_ns) h4 in
      let (quality, h6, f) =
        >>=-returns (time_quality row.quality_epoch status row.quality_offset_ns uncertainty age)
          h5 in
      let (monotonic, h7, g) = >>=-returns (natural row.receipt_monotonic_ns) h6 in
      let (receipt, h8, i) =
        >>=-returns (clock_sample row.receipt_wall_time_ns monotonic row.receipt_session_id quality)
          h7 in
      let (sequence, h9, j) = >>=-returns (optional_natural row.source_sequence) h8 in
      let (envelope, h10, k) = >>=-returns (checked_envelope sha256 max_payload _) h9 in
      let (h11, l) =
        >>-returns
          (require (str_eq envelope.content_sha256 row.content_sha256)
            (value_error "Stored payload hash mismatch"))
          h10 in
      let (id, h12, m) = >>=-returns (ingestion_id row.producer row.epoch row.offset) h11 in
      let (offset, producer) = ingestion_id-fields row.producer row.epoch row.offset id m in
      let whole : RawRecord = record { identity = id; envelope = envelope } in
      let same = ok_same whole r h12 in
      (
        ap (λ (x : RawRecord). x.identity.offset) (sym same) ∙ offset,
        ap (λ (x : RawRecord). x.identity.producer) (sym same) ∙ producer,
      )

  module _ (w : World) (s : Intake) (ready : submit w s ≡ ok tt) where
    records_after-one :
        (n : ℕ) (before after : List StoredRow) (row : StoredRow) (r : RawRecord)
        → s.rows ≡ before ++ row ∷ after
        → IsAscending 0 before n
        → n < row.offset
        → row.producer ≡ s.producer
        → decode_record sha256 s.max_payload_bytes row ≡ ok r
        → records_after sha256 w n 1 s ≡ ok (r ∷ [])
    unfolding records_after read read_as decoded page
    records_after-one n before after row r rows low high own first =
        let p = is_after s.producer n in
        let found : page 1 (keep p s.rows) ≡ row ∷ [] =
          ap (λ l. page 1 (keep p l)) rows
          ∙ selected_first sha256 s.producer n 0 before after row low high own in
        rw ready (rw found (rw first refl))

    records_after-none : (n : ℕ) → IsAscending 0 s.rows n → records_after sha256 w n 1 s ≡ ok []
    unfolding records_after read read_as decoded page
    records_after-none n low =
        let nothing = keep-IsAscending s.producer 0 s.rows n n low (omega arith) in
        rw ready (rw nothing refl)

    read_next-one :
        (checkpoint : Option IngestionId) (r : RawRecord)
        → records_after sha256 w (offset_of checkpoint) 1 s ≡ ok (r ∷ [])
        → r.identity.producer ≡ s.producer
        → offset_of checkpoint < r.identity.offset
        → read_next sha256 w s s.producer checkpoint none ≡ ok (r ∷ [])
    unfolding read_next read_or_fail out_of_order against_barrier
    read_next-one checkpoint r found own high =
        let its_own = (str_eq_iff r.identity.producer s.producer).1 own in
        let later : leb r.identity.offset (offset_of checkpoint) ≡ false = ground arith in
        rw found (rw its_own (rw later refl))

    read_next-none :
        (checkpoint : Option IngestionId)
        → records_after sha256 w (offset_of checkpoint) 1 s ≡ ok []
        → read_next sha256 w s s.producer checkpoint none ≡ ok []
    unfolding read_next read_or_fail out_of_order against_barrier
    read_next-none checkpoint found = rw found refl

    read_all-step :
        (fuel : ℕ) (checkpoint : Option IngestionId) (r : RawRecord) (later : List RawRecord)
        → read_next sha256 w s s.producer checkpoint none ≡ ok (r ∷ [])
        → read_all sha256 w s fuel (some r.identity) ≡ ok (some later)
        → read_all sha256 w s (suc fuel) checkpoint ≡ ok (some (r ∷ later))
    unfolding read_all read_on
    read_all-step fuel checkpoint r later read onward = rw read (rw onward refl)

    read_rest :
        (checkpoint : Option IngestionId) (before rest : List StoredRow) (top : ℕ)
        (records : List RawRecord)
        → s.rows ≡ before ++ rest
        → IsAscending 0 before (offset_of checkpoint)
        → IsAscending (offset_of checkpoint) rest top
        → All (λ row. row.producer ≡ s.producer) rest
        → decoded sha256 s.max_payload_bytes rest ≡ ok records
        → read_all sha256 w s (suc (length rest)) checkpoint ≡ ok (some records)
    unfolding read_all read_on decoded
    read_rest checkpoint before [] top records rows low high own told =
        let all_before : IsAscending 0 s.rows (offset_of checkpoint) =
          subst (λ l. IsAscending 0 l (offset_of checkpoint)) (sym (append_nil before) ∙ sym rows)
            low in
        rw (read_next-none checkpoint (records_after-none (offset_of checkpoint) all_before))
          (ap (λ x. ok (some x)) (ok_same [] records told))
    read_rest checkpoint before (row ∷ rest) top records rows low high own told =
        let (r, more, first) = >>=-returns (decode_record sha256 s.max_payload_bytes row) told in
        let (later, made, others) = >>=-returns (decoded sha256 s.max_payload_bytes rest) more in
        let (offset, producer) = decode_record-identity s.max_payload_bytes row r first in
        let found =
          records_after-one (offset_of checkpoint) before rest row r rows low high.0 own.0 first in
        let read =
          read_next-one checkpoint r found (producer ∙ own.0) (omega (arith, high.0, offset)) in
        let next_offset : row.offset ≡ offset_of (some r.identity) =
          unfold offset_of in sym offset in
        let onward =
          read_rest (some r.identity) (before ++ row ∷ []) rest top later
            (rows ∙ sym (append_assoc before (row ∷ []) rest))
            (subst (IsAscending 0 (before ++ row ∷ [])) next_offset
              (IsAscending-append 0 before (offset_of checkpoint) row low high.0))
            (subst (λ n. IsAscending n rest top) next_offset high.1) own.1 others in
        read_all-step (suc (length rest)) checkpoint r later read onward
        ∙ ap (λ x. ok (some x)) (ok_same (r ∷ later) records made)

  -- Reading on from no checkpoint, one record at a time and each time after the last one read, ends:
  -- on an open spool whose rows are in order, it has given each record of the spool once and in
  -- order after as many steps as there are rows, and the next step finds none; it never raises.
  pub read_all_ends :
      (w : World) (s : Intake)
      → IsOrdered sha256 s
      → submit w s ≡ ok tt
      → (records : List RawRecord) × (decoded sha256 s.max_payload_bytes s.rows ≡ ok records)
        × (read_all sha256 w s (suc (length s.rows)) none ≡ ok (some records))
  unfolding offset_of
  read_all_ends w s o ready =
      let (records, told) = decoded-All sha256 s.max_payload_bytes s.rows o.readable in
      (
        records,
        told,
        read_rest w s ready none [] s.rows s.sequence records refl (omega arith) o.ascending o.owned
            told,
      )
