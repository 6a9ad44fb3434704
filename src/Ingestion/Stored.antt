-- ===== src/Ingestion/Stored.antt =====
-- src/scryntic/ingestion/sqlite_spool.py: the columns of the table `raw_records`, and a record's way
-- into them and back. The library's SHA-256, in hex, is the parameter `sha256`.
pub mod RoundTrip
pub mod Limit
use scryntic.Prelude.{
  ℕ, ◌^◌, String, Bool, true, ◌&&◌, Option, none, some, List, ltb, Result, ok, err, value_error,
  require, ◌>>=◌, ◌>>◌, if◌then◌else◌,
}
use scryntic.Prelude.Int.{ℤ, pos, negsuc}
use scryntic.Prelude.Text.{str_eq}
use scryntic.Domain.Identity.{SubjectId, instrument, entity, checked_subject}
use scryntic.Domain.Time.{
  TimeUnit, second, millisecond, microsecond, nanosecond, SourceTime, QualityStatus, unknown,
  degraded, healthy, time_quality, clock_sample,
}
use scryntic.Domain.Raw.{RawEnvelope, RawRecord, ingestion_id, checked_envelope}

pub record StoredRow : Type 0 where
  pub offset : ℕ
  pub producer : String
  pub epoch : String
  pub source : String
  pub stream : String
  pub channel : String
  pub adapter_version : String
  pub receipt_wall_time_ns : ℤ
  pub receipt_monotonic_ns : ℤ
  pub receipt_session_id : String
  pub quality_epoch : String
  pub quality_status : String
  pub quality_offset_ns : Option ℤ
  pub quality_uncertainty_ns : Option ℤ
  pub quality_evidence_age_ns : Option ℤ
  pub subject_type : Option String
  pub subject_first : Option String
  pub subject_second : Option String
  pub subject_third : Option String
  pub source_time_value : Option ℤ
  pub source_time_unit : Option String
  pub source_event_id : Option String
  pub source_sequence : Option ℤ
  pub payload : List ℕ
  pub content_sha256 : String

abbrev pub status_text : QualityStatus → String
status_text unknown = "unknown"
status_text degraded = "degraded"
status_text healthy = "healthy"

abbrev pub unit_text : TimeUnit → String
unit_text second = "s"
unit_text millisecond = "ms"
unit_text microsecond = "us"
unit_text nanosecond = "ns"

-- `_subject_values`
pub record SubjectValues : Type 0 where
  pub type : Option String
  pub first : Option String
  pub second : Option String
  pub third : Option String

abbrev pub subject_values : Option SubjectId → SubjectValues
subject_values none = record { type = none; first = none; second = none; third = none }
subject_values (some (instrument i)) = record {
  type = some "instrument";
  first = some i.venue;
  second = some i.category;
  third = some i.symbol;
}
subject_values (some (entity e)) = record {
  type = some "entity";
  first = some e.kind;
  second = some e.namespace;
  third = some e.value;
}

abbrev pub time_value : Option SourceTime → Option ℤ
time_value none = none
time_value (some t) = some t.value

abbrev pub time_unit : Option SourceTime → Option String
time_unit none = none
time_unit (some t) = some (unit_text t.unit)

abbrev pub optional_pos : Option ℕ → Option ℤ
optional_pos none = none
optional_pos (some n) = some (pos n)

-- the row of the INSERT of `_accept`
unfoldable pub stored_row : String → String → ℕ → RawEnvelope → StoredRow
stored_row producer epoch offset e =
    let subject = subject_values e.subject in
    let quality = e.receipt.quality in
    record {
      offset = offset;
      producer = producer;
      epoch = epoch;
      source = e.source;
      stream = e.stream;
      channel = e.channel;
      adapter_version = e.adapter_version;
      receipt_wall_time_ns = e.receipt.wall_time_ns;
      receipt_monotonic_ns = pos e.receipt.monotonic_ns;
      receipt_session_id = e.receipt.session_id;
      quality_epoch = quality.epoch;
      quality_status = status_text quality.status;
      quality_offset_ns = quality.offset_ns;
      quality_uncertainty_ns = optional_pos quality.uncertainty_ns;
      quality_evidence_age_ns = optional_pos quality.evidence_age_ns;
      subject_type = subject.type;
      subject_first = subject.first;
      subject_second = subject.second;
      subject_third = subject.third;
      source_time_value = time_value e.source_time;
      source_time_unit = time_unit e.source_time;
      source_event_id = e.source_event_id;
      source_sequence = optional_pos e.source_sequence;
      payload = e.payload;
      content_sha256 = e.content_sha256;
    }

-- An integer that SQLite can bind: one of 64 bits.
abbrev pub fits : ℤ → Bool
fits (pos n) = ltb n (2 ^ 63)
fits (negsuc n) = ltb n (2 ^ 63)

abbrev pub optional_fits : Option ℤ → Bool
optional_fits none = true
optional_fits (some z) = fits z

unfoldable pub row_fits : StoredRow → Bool
row_fits r =
    fits r.receipt_wall_time_ns
    && (fits r.receipt_monotonic_ns
        && (optional_fits r.quality_offset_ns
            && (optional_fits r.quality_uncertainty_ns
                && (optional_fits r.quality_evidence_age_ns
                    && (optional_fits r.source_time_value && optional_fits r.source_sequence)))))

-- `text(index)` of a column that may be NULL
text_of : Option String → Result String
text_of none = err (value_error "Expected stored text")
text_of (some s) = ok s

-- `_stored_subject`
unfoldable pub stored_subject :
    Option String → Option String → Option String → Option String → Result (Option SubjectId)
unfolding text_of
stored_subject none none none none = ok none
stored_subject none a b c = err (value_error "Incomplete stored subject")
stored_subject (some type) a b c =
    if str_eq type "instrument"
    then (do
      venue ← text_of a
      category ← text_of b
      symbol ← text_of c
      subject ←
          checked_subject
            (instrument (record { venue = venue; category = category; symbol = symbol }))
      ok (some subject))
    else if str_eq type "entity"
    then (do
      kind ← text_of a
      namespace ← text_of b
      value ← text_of c
      subject ←
          checked_subject (entity (record { kind = kind; namespace = namespace; value = value }))
      ok (some subject))
    else err (value_error "Unknown stored subject")

-- `TimeUnit(unit)`
unfoldable pub unit_of : String → Result TimeUnit
unit_of s =
    if str_eq s "s"
    then ok second
    else if str_eq s "ms"
    then ok millisecond
    else if str_eq s "us"
    then ok microsecond
    else if str_eq s "ns"
    then ok nanosecond
    else err (value_error "Unknown time unit")

unfoldable pub stored_source_time : Option ℤ → Option String → Result (Option SourceTime)
stored_source_time none none = ok none
stored_source_time (some value) (some unit) = do
  known ← unit_of unit
  ok (some (record { value = value; unit = known }))
stored_source_time _ _ = err (value_error "Incomplete stored source time")

unfoldable pub status_of : String → Result QualityStatus
status_of s =
    if str_eq s "unknown"
    then ok unknown
    else if str_eq s "degraded"
    then ok degraded
    else if str_eq s "healthy"
    then ok healthy
    else err (value_error "Unknown stored time quality")

-- the tests `integer(value, 0)` of the constructors
abbrev pub natural : ℤ → Result ℕ
natural (pos n) = ok n
natural (negsuc n) = err (value_error "Integer below allowed minimum")

abbrev pub optional_natural : Option ℤ → Result (Option ℕ)
optional_natural none = ok none
optional_natural (some (pos n)) = ok (some n)
optional_natural (some (negsuc n)) = err (value_error "Integer below allowed minimum")

-- `_decode_record`
unfoldable pub decode_record : (List ℕ → String) → ℕ → StoredRow → Result RawRecord
decode_record sha256 max_payload r = do
  subject ← stored_subject r.subject_type r.subject_first r.subject_second r.subject_third
  source_time ← stored_source_time r.source_time_value r.source_time_unit
  status ← status_of r.quality_status
  uncertainty ← optional_natural r.quality_uncertainty_ns
  age ← optional_natural r.quality_evidence_age_ns
  quality ← time_quality r.quality_epoch status r.quality_offset_ns uncertainty age
  monotonic ← natural r.receipt_monotonic_ns
  receipt ← clock_sample r.receipt_wall_time_ns monotonic r.receipt_session_id quality
  sequence ← optional_natural r.source_sequence
  envelope ← checked_envelope sha256 max_payload (record {
    source = r.source;
    stream = r.stream;
    channel = r.channel;
    adapter_version = r.adapter_version;
    receipt = receipt;
    payload = r.payload;
    subject = subject;
    source_time = source_time;
    source_event_id = r.source_event_id;
    source_sequence = sequence;
    content_sha256 = r.content_sha256;
  })
  require (str_eq envelope.content_sha256 r.content_sha256)
      (value_error "Stored payload hash mismatch")
  identity ← ingestion_id r.producer r.epoch r.offset
  ok (record { identity = identity; envelope = envelope })
