-- ===== src/Domain/Raw.antt =====
-- src/scryntic/domain/raw.py
use scryntic.Prelude.{
  ℕ, String, List, Option, some, none, Result, ok, ltb, length, refuse, value_error, ◌>>◌,
}
use scryntic.Domain.Identity.{SubjectId}
use scryntic.Domain.Validation.{identifier}
use scryntic.Domain.Time.{ClockSample, SourceTime}

pub record IngestionId : Type 0 where
  pub producer : String
  pub epoch : String
  pub offset : ℕ

pub record RawEnvelope : Type 0 where
  pub source : String
  pub stream : String
  pub channel : String
  pub adapter_version : String
  pub receipt : ClockSample
  pub payload : List ℕ
  pub subject : Option SubjectId
  pub source_time : Option SourceTime
  pub source_event_id : Option String
  pub source_sequence : Option ℕ
  pub content_sha256 : String

pub record RawRecord : Type 0 where
  pub identity : IngestionId
  pub envelope : RawEnvelope

-- `IngestionId(producer, epoch, offset)`
unfoldable pub ingestion_id : String → String → ℕ → Result IngestionId
ingestion_id producer epoch offset = do
  identifier producer
  identifier epoch
  ok (record { producer = producer; epoch = epoch; offset = offset })

unfoldable pub checked_event_id : Option String → Result (Unit {0})
checked_event_id none = ok tt
checked_event_id (some id) = identifier id

-- `RawEnvelope(…, payload_limit=limit)` of the other fields; `sha256` is the library's, in hex
unfoldable pub checked_envelope : (List ℕ → String) → ℕ → RawEnvelope → Result RawEnvelope
checked_envelope sha256 limit e = do
  refuse (ltb limit (length e.payload)) (value_error "Raw payload exceeds the local payload limit")
  identifier e.source
  identifier e.stream
  identifier e.channel
  identifier e.adapter_version
  checked_event_id e.source_event_id
  ok (record e { content_sha256 = sha256 e.payload })
