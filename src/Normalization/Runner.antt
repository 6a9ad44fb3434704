-- ===== src/Normalization/Runner.antt =====
-- src/scryntic/normalization/runner.py: `_read_next`, with the spool as its reader, and the reading
-- that repeats it from each record to the next, as `process_next` does while its store advances the
-- checkpoint.
pub mod Reading
use scryntic.Prelude.{
  ℕ, zero, suc, String, Bool, true, false, not, ◌&&◌, ◌||◌, Option, none, some, List, [], ◌∷◌, leb,
  ltb, ◌==◌, length, if◌then◌else◌, Result, ok, err, Error, refuse, runtime_error, ◌>>=◌, ◌>>◌,
}
use scryntic.Prelude.Text.{str_eq}
use scryntic.Domain.Raw.{RawRecord, IngestionId}
use scryntic.Ingestion.Intake.{World, Intake, records_after}

pub record ProcessingBarrier : Type 0 where
  pub blocker : IngestionId
  pub raw_sha256 : String
  pub predecessor : Option IngestionId

unfoldable pub same_id : IngestionId → IngestionId → Bool
same_id a b = str_eq a.producer b.producer && (str_eq a.epoch b.epoch && a.offset == b.offset)

unfoldable pub same_checkpoint : Option IngestionId → Option IngestionId → Bool
same_checkpoint none none = true
same_checkpoint (some a) (some b) = same_id a b
same_checkpoint _ _ = false

-- the offset that is read from
unfoldable pub offset_of : Option IngestionId → ℕ
offset_of none = 0
offset_of (some id) = id.offset

unfoldable pub out_of_order : String → ℕ → List RawRecord → Bool
out_of_order producer offset [] = false
out_of_order producer offset (r ∷ rest) =
    not (str_eq r.identity.producer producer) || leb r.identity.offset offset

unfoldable pub against_barrier :
    Option IngestionId → Option ProcessingBarrier → List RawRecord → Bool
against_barrier checkpoint none records = false
against_barrier checkpoint (some b) [] = true
against_barrier checkpoint (some b) (r ∷ rest) =
    not (same_id b.blocker r.identity)
    || (not (str_eq b.raw_sha256 r.envelope.content_sha256)
        || not (same_checkpoint b.predecessor checkpoint))

-- the exception that the reader's becomes
unfoldable pub read_or_fail : Result (List RawRecord) → Result (List RawRecord)
read_or_fail (err e) = err (runtime_error "Unable to read next normalization record")
read_or_fail (ok records) = ok records

module _ (sha256 : List ℕ → String) where
  unfoldable pub read_next :
      World
      → Intake
      → String
      → Option IngestionId
      → Option ProcessingBarrier
      → Result (List RawRecord)
  read_next w s producer checkpoint barrier = do
    records ← read_or_fail (records_after sha256 w (offset_of checkpoint) 1 s)
    refuse (ltb 1 (length records)) (runtime_error "Invalid normalization reader result")
    refuse (out_of_order producer (offset_of checkpoint) records)
        (runtime_error "Invalid normalization record order")
    refuse (against_barrier checkpoint barrier records)
        (runtime_error "Normalization record does not match barrier")
    ok records

  -- the records that reading from a checkpoint gives in turn, up to where there is none; `none`
  -- where the fuel has run out
  unfoldable pub read_on :
      (Option IngestionId → Result (Option (List RawRecord)))
      → List RawRecord
      → Result (Option (List RawRecord))
  read_on next [] = ok (some [])
  read_on next (r ∷ rest) = do
    later ← next (some r.identity)
    ok (elim later [ none ↦ none | some records ↦ some (r ∷ records) ])

  unfoldable pub read_all :
      World → Intake → ℕ → Option IngestionId → Result (Option (List RawRecord))
  read_all w s zero checkpoint = ok none
  read_all w s (suc fuel) checkpoint = do
    records ← read_next w s s.producer checkpoint none
    read_on (read_all w s fuel) records
