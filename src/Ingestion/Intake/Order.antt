-- ===== src/Ingestion/Intake/Order.antt =====
-- src/scryntic/ingestion/sqlite_spool.py: what `accept` leaves, and the rows after any calls.
use scryntic.Prelude.{
  ℕ, suc, ◌+◌, ◌≡◌, ◌∙◌, String, Bool, true, false, not, ◌&&◌, ◌||◌, List, [], ◌∷◌, ◌++◌, Result,
  ok, err, refl, ◌⊎◌, inl, inr, sym, ap, subst, >>=-returns, >>-returns, Bool-cases, ltb, leb,
  ok_same, Result-cases, require, refuse, sqlite_error, ingestion_error, length, Error, ◌^◌,
}
use scryntic.Domain.Raw.{RawEnvelope, RawRecord, IngestionId, ingestion_id}
use scryntic.Domain.Validation.{identifier}
use scryntic.Domain.Equality.{same_record, same_record_iff}
use scryntic.Ingestion.Stored.{StoredRow, stored_row, row_fits, decode_record}
use scryntic.Ingestion.Intake.{
  World, Intake, submit, insert, store, accept, rolled_back, committed, begun,
}

require-true : (b : Bool) (x : Error) → require b x ≡ ok tt → b ≡ true
require-true true x h = refl
require-true false x h = cc

module _ (sha256 : List ℕ → String) where
  -- `accept` stores the record that it returns, under the next offset.
  pub record IsAccepted (e : RawEnvelope) (s s' : Intake) (r : RawRecord) (row : StoredRow)
      : Type 0 where
    pub its_envelope : r.envelope ≡ e
    pub its_producer : r.identity.producer ≡ s.producer
    pub its_epoch : r.identity.epoch ≡ s.epoch
    pub its_offset : r.identity.offset ≡ suc s.sequence
    pub row_offset : row.offset ≡ suc s.sequence
    pub row_producer : row.producer ≡ s.producer
    pub decodes : decode_record sha256 s.max_payload_bytes row ≡ ok r
    pub left : s' ≡ record s { rows = s.rows ++ row ∷ []; sequence = suc s.sequence }

  IsAccepted-stored_row :
      (e : RawEnvelope) (s : Intake) (id : IngestionId)
      → ingestion_id s.producer s.epoch (suc s.sequence) ≡ ok id
      → decode_record sha256 s.max_payload_bytes (stored_row s.producer s.epoch (suc s.sequence) e)
        ≡ ok (record { identity = id; envelope = e })
      → IsAccepted e s
          (record s {
            rows = s.rows ++ stored_row s.producer s.epoch (suc s.sequence) e ∷ [];
            sequence = suc s.sequence;
          })
          (record { identity = id; envelope = e })
          (stored_row s.producer s.epoch (suc s.sequence) e)
  unfolding ingestion_id stored_row
  IsAccepted-stored_row e s id made read =
      let (h1, producer) = >>-returns (identifier s.producer) made in
      let (h2, epoch) = >>-returns (identifier s.epoch) h1 in
      let same : record { producer = s.producer; epoch = s.epoch; offset = suc s.sequence } ≡ id =
        ok_same _ id h2 in
      record {
        its_envelope = refl;
        its_producer = ap (λ (x : IngestionId). x.producer) (sym same);
        its_epoch = ap (λ (x : IngestionId). x.epoch) (sym same);
        its_offset = ap (λ (x : IngestionId). x.offset) (sym same);
        row_offset = refl;
        row_producer = refl;
        decodes = read;
        left = refl;
      }

  insert-decodes :
      (w : World) (e : RawEnvelope) (s : Intake) (r : RawRecord) (row : StoredRow)
      → insert sha256 w e s ≡ ok (r, row)
      → IsAccepted e s (record s { rows = s.rows ++ row ∷ []; sequence = suc s.sequence }) r row
  unfolding insert
  insert-decodes w e s r row h =
      let expected_row = stored_row s.producer s.epoch (suc s.sequence) e in
      let (h1, done) = >>-returns (require (row_fits expected_row && w.writes) sqlite_error) h in
      let (h2, small) = >>-returns (refuse (leb (2 ^ 63) (suc s.sequence)) sqlite_error) h1 in
      let (id, h3, made) = >>=-returns (ingestion_id s.producer s.epoch (suc s.sequence)) h2 in
      let (stored, h4, read) =
        >>=-returns (decode_record sha256 s.max_payload_bytes expected_row) h3 in
      let expected : RawRecord = record { identity = id; envelope = e } in
      let (h5, same') =
        >>-returns
          (require (same_record stored expected)
            (ingestion_error "SQLite did not store the accepted envelope"))
          h4 in
      let same : (expected, expected_row) ≡ (r, row) = ok_same _ (r, row) h5 in
      let as_read : decode_record sha256 s.max_payload_bytes expected_row ≡ ok expected =
        read
        ∙ ap ok (
            (same_record_iff stored expected).0
              (require-true (same_record stored expected) _ same')) in
      subst
        (λ x.
          IsAccepted e s (record s { rows = s.rows ++ x.1 ∷ []; sequence = suc s.sequence }) x.0
            x.1)
        same (IsAccepted-stored_row e s id made as_read)

  -- a call that returns and has stored the record, or raises and has left the rows
  abbrev pub Ends : RawEnvelope → Intake → Result RawRecord × Intake → Type 0
  Ends e s out =
      ((r : RawRecord) × (row : StoredRow) × (out.0 ≡ ok r) × IsAccepted e s out.1 r row)
      ⊎ ((x : Error) × (out.0 ≡ err x) × (out.1 ≡ record s { fatal = out.1.fatal }))

  refused-Ends : (e : RawEnvelope) (s : Intake) (x : Error) → Ends e s (err x, s)
  refused-Ends e s x = inr (x, refl, refl)

  committed-Ends :
      (w : World) (e : RawEnvelope) (s : Intake) (did : Result (RawRecord × StoredRow))
      → begun sha256 w e s ≡ did
      → Ends e s (committed w s did)
  unfolding committed begun rolled_back
  committed-Ends w e s (err x) h = elim (Bool-cases (not w.begins || w.rolls_back)) [
    | inl back ↦ rw back (refused-Ends e s (ingestion_error "Unable to commit raw envelope"))
    | inr lost ↦
        rw lost (inr (ingestion_error "Durable ingestion transaction recovery failed", refl, refl))
  ]
  committed-Ends w e s (ok (r, row)) h =
      let k = insert-decodes w e s r row (>>-returns (require w.begins sqlite_error) h).0 in
      inl (
        r,
        row,
        refl,
        subst
            (λ (n : ℕ). IsAccepted e s (record s { rows = s.rows ++ row ∷ []; sequence = n }) r row)
            (sym k.row_offset) k,
      )

  -- `accept` either returns the envelope under the next offset, with the spool's producer and epoch,
  -- and has added one row, which decodes to the record returned; or it raises, and then nothing but
  -- the writer's failure flag has changed.
  pub accept-Ends : (w : World) (e : RawEnvelope) (s : Intake) → Ends e s (accept sha256 w e s)
  unfolding accept store
  accept-Ends w e s = elim (Bool-cases (ltb s.max_payload_bytes (length e.payload))) [
    | inl large ↦
        rw large (refused-Ends e s (ingestion_error "Raw envelope exceeds ingestion payload limit"))
    | inr fits ↦ elim (Result-cases (submit w s)) [
      | inr (x, no_room) ↦ rw fits (rw (no_room, accept) (refused-Ends e s x))
      | inl (u, room) ↦
          elim (Bool-cases (ltb w.free_bytes (s.metadata_headroom_bytes + length e.payload))) [
            | inl full ↦ rw fits (
                rw (room, accept)
                  (rw full (
                    refused-Ends e s
                      (ingestion_error "Payload intake stopped for metadata headroom"))))
            | inr free ↦
                rw fits
                  (rw (room, accept) (rw free (committed-Ends w e s (begun sha256 w e s) refl)))
          ]
    ]
  ]
