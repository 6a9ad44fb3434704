-- ===== src/Ingestion/Intake.antt =====
-- src/scryntic/ingestion/sqlite_spool.py: `DurableIngestor`, the path of the raw records. The
-- writer's thread serves the requests one by one, so that a request is one step: what the queue,
-- the disk and SQLite do in it is its `World`. The rows of `raw_records` stand in the order of
-- their offsets; `sequence` is the last one that AUTOINCREMENT has given.
pub mod Order
pub mod Growth
pub mod Durable
use scryntic.Prelude.{
  ℕ, zero, suc, ◌+◌, ◌^◌, String, Bool, true, false, not, ◌&&◌, ◌||◌, Option, none, some, List, [],
  ◌∷◌, ◌++◌, ltb, leb, ◌==◌, length, if◌then◌else◌, Result, ok, err, Error, ingestion_error,
  intake_full, value_error, sqlite_error, refuse, require, ◌>>=◌, ◌>>◌, keep, all,
}
use scryntic.Prelude.Text.{str_eq}
use scryntic.Prelude.Int.{ℤ, eq_ℤ}
use scryntic.Domain.Validation.{identifier}
use scryntic.Domain.Raw.{RawEnvelope, RawRecord, IngestionId, ingestion_id}
use scryntic.Domain.Equality.{same_record}
use scryntic.Ingestion.Stored.{StoredRow, stored_row, row_fits, decode_record}

pub record World : Type 0 where
  -- `f_bavail * f_frsize` of the disk
  pub free_bytes : ℕ
  pub queue_has_room : Bool
  -- whether SQLite begins a transaction, does what it is told in it, and rolls back
  pub begins : Bool
  pub writes : Bool
  pub rolls_back : Bool

pub record Intake : Type 0 where
  pub producer : String
  pub epoch : String
  pub capacity : ℕ
  pub max_payload_bytes : ℕ
  pub metadata_headroom_bytes : ℕ
  pub rows : List StoredRow
  pub sequence : ℕ
  pub fatal : Bool
  pub closing : Bool
  pub closed : Bool

-- `_submit`
unfoldable pub submit : World → Intake → Result (Unit {0})
submit w s = do
  refuse s.fatal (ingestion_error "Durable ingestion writer failed")
  refuse s.closing (ingestion_error "Durable ingestion is closing")
  refuse s.closed (ingestion_error "Durable ingestion is closed")
  require w.queue_has_room intake_full

-- `_rollback_transaction` and what `_accept` raises after it; a rollback that fails ends the writer
unfoldable pub rolled_back : World → Intake → Result RawRecord × Intake
rolled_back w s =
    if not w.begins || w.rolls_back
    then (err (ingestion_error "Unable to commit raw envelope"), s)
    else (
      err (ingestion_error "Durable ingestion transaction recovery failed"),
      record s { fatal = true },
    )

unfoldable pub committed :
    World → Intake → Result (RawRecord × StoredRow) → Result RawRecord × Intake
committed w s (err e) = rolled_back w s
committed w s (ok (accepted, row)) =
    (ok accepted, record s { rows = s.rows ++ row ∷ []; sequence = row.offset })

-- the rows of the SELECT of `_read`
unfoldable pub page : ℕ → List StoredRow → List StoredRow
page zero rows = []
page (suc limit) [] = []
page (suc limit) (r ∷ rows) = r ∷ page limit rows

abbrev pub is_after : String → ℕ → StoredRow → Bool
is_after producer offset r = str_eq r.producer producer && ltb offset r.offset

-- `except (TypeError, ValueError, IndexError)`, which are all that decoding raises
unfoldable pub read_as : Result (List RawRecord) → Result (List RawRecord)
read_as (err e) = err (ingestion_error "Invalid durable raw record")
read_as (ok records) = ok records

greatest : String → List StoredRow → ℕ → ℕ
greatest producer [] n = n
greatest producer (r ∷ rows) n =
    greatest producer rows (if str_eq r.producer producer && ltb n r.offset then r.offset else n)

-- `accepted_offset` of `_status`
unfoldable pub accepted_offset : Intake → ℕ
unfolding greatest
accepted_offset s = greatest s.producer s.rows 0

module _ (sha256 : List ℕ → String) where
  -- the statements of `_accept` between BEGIN and COMMIT
  unfoldable pub insert : World → RawEnvelope → Intake → Result (RawRecord × StoredRow)
  insert w e s = do
    let row = stored_row s.producer s.epoch (suc s.sequence) e
    require (row_fits row && w.writes) sqlite_error
    refuse (leb (2 ^ 63) (suc s.sequence)) sqlite_error
    identity ← ingestion_id s.producer s.epoch (suc s.sequence)
    let expected : RawRecord = record { identity = identity; envelope = e }
    stored ← decode_record sha256 s.max_payload_bytes row
    require (same_record stored expected)
        (ingestion_error "SQLite did not store the accepted envelope")
    ok (expected, row)

  unfoldable pub begun : World → RawEnvelope → Intake → Result (RawRecord × StoredRow)
  begun w e s = do require w.begins sqlite_error; insert w e s

  -- `_accept`
  unfoldable pub store : World → RawEnvelope → Intake → Result RawRecord × Intake
  store w e s =
      if ltb w.free_bytes (s.metadata_headroom_bytes + length e.payload)
      then (err (ingestion_error "Payload intake stopped for metadata headroom"), s)
      else committed w s (begun w e s)

  unfoldable pub accept : World → RawEnvelope → Intake → Result RawRecord × Intake
  accept w e s =
      if ltb s.max_payload_bytes (length e.payload)
      then (err (ingestion_error "Raw envelope exceeds ingestion payload limit"), s)
      else elim (submit w s) [ err x ↦ (err x, s) | ok u ↦ store w e s ]

  unfoldable pub decoded : ℕ → List StoredRow → Result (List RawRecord)
  decoded max_payload [] = ok []
  decoded max_payload (r ∷ rows) = do
    first ← decode_record sha256 max_payload r
    rest ← decoded max_payload rows
    ok (first ∷ rest)

  -- `_read`
  unfoldable pub read : ℕ → ℕ → Intake → Result (List RawRecord)
  read offset limit s =
      read_as (decoded s.max_payload_bytes (page limit (keep (is_after s.producer offset) s.rows)))

  unfoldable pub records_after : World → ℕ → ℕ → Intake → Result (List RawRecord)
  records_after w offset limit s = do
    refuse (ltb limit 1) (value_error "Integer below allowed minimum")
    submit w s
    read offset limit s

-- `close`: the writer has served what was queued
unfoldable pub close : Intake → Intake
close s = if s.closed then s else record s { closing = true; closed = true }

-- The file: whose it is, where it has been created, its rows and its last offset.
pub record File : Type 0 where
  pub owner : Option String
  pub rows : List StoredRow
  pub sequence : ℕ

unfoldable pub is_owner : String → Option String → Bool
is_owner producer none = true
is_owner producer (some owner) = str_eq owner producer

-- `__init__`, with the checks of `_validate_schema` on the producer
unfoldable pub open_intake : String → String → ℕ → ℕ → ℕ → File → Result Intake
open_intake producer epoch capacity max_payload headroom file = do
  identifier producer
  identifier epoch
  refuse (ltb capacity 1 || (ltb max_payload 1 || ltb headroom 1))
      (value_error "Integer below allowed minimum")
  require (is_owner producer file.owner && all (λ r. str_eq r.producer producer) file.rows)
      (ingestion_error "Ingestion producer does not own this spool")
  ok (record {
    producer = producer;
    epoch = epoch;
    capacity = capacity;
    max_payload_bytes = max_payload;
    metadata_headroom_bytes = headroom;
    rows = file.rows;
    sequence = file.sequence;
    fatal = false;
    closing = false;
    closed = false;
  })

-- The calls of the owners of one spool: an exception leaves the state that the call left. A restart
-- opens the file again, with any producer, epoch, capacity, limit on payloads and headroom.
pub data Call : Type 0 where
  call_accept : RawEnvelope → Call
  call_records_after : ℕ → ℕ → Call
  call_close : Call
  call_restart : String → String → ℕ → ℕ → ℕ → Call

unfoldable pub restarted : Intake → Result Intake → Intake
restarted s (err e) = s
restarted s (ok after) = after

unfoldable pub run_call : (List ℕ → String) → World → Call → Intake → Intake
run_call sha256 w (call_accept e) s = (accept sha256 w e s).1
run_call sha256 w (call_records_after offset limit) s = s
run_call sha256 w call_close s = close s
run_call sha256 w (call_restart producer epoch capacity max_payload headroom) s = restarted s (
    open_intake producer epoch capacity max_payload headroom
      (record { owner = some s.producer; rows = s.rows; sequence = s.sequence }))

unfoldable pub run_calls : (List ℕ → String) → List (World × Call) → Intake → Intake
run_calls sha256 [] s = s
run_calls sha256 ((w, c) ∷ cs) s = run_calls sha256 cs (run_call sha256 w c s)
