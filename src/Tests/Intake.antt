-- ===== src/Tests/Intake.antt =====
-- src/scryntic/ingestion/sqlite_spool.py: one envelope that is stored and read again.
use scryntic.Domain.Equality.{same_record_iff}
use scryntic.Domain.Validation.{is_identifier, identifier}
use scryntic.Normalization.Runner.{read_all}
use scryntic.Normalization.Runner.Reading.{read_all_ends}
use scryntic.Prelude.{
  none, suc, length, ◌≡◌, String, true, false, some, none, List, [], ◌∷◌, ok, refl, ℕ, arith,
}
use scryntic.Prelude.Int.{pos, negsuc}
use scryntic.Domain.Identity.{checked_subject, entity}
use scryntic.Domain.Time.{
  lacks_evidence, clock_sample, time_quality, ClockSample, degraded, millisecond,
}
use scryntic.Domain.Raw.{ingestion_id, checked_event_id, checked_envelope, RawEnvelope, RawRecord}
use scryntic.Ingestion.Stored.{
  status_of, unit_of, stored_source_time, stored_subject, row_fits, stored_row, decode_record,
}
use scryntic.Ingestion.Stored.RoundTrip.{decode_record-stored_row}
use scryntic.Ingestion.Intake.{
  decoded, is_owner, close, open_intake, restarted, run_call, rolled_back, insert, begun, committed,
  store, submit, World, Intake, accept, records_after, run_calls, Call, call_restart,
  call_records_after, call_close,
}
use scryntic.Ingestion.Intake.Order.{Ends, accept-Ends}
use scryntic.Ingestion.Intake.Growth.{IsOrdered, IsWhole, Grows, run_calls-Grows}
use scryntic.Ingestion.Intake.Durable.{accept-records_after}

abbrev hash : List ℕ → String
hash payload = "00ff"

abbrev receipt : ClockSample
receipt = record {
  wall_time_ns = pos 1_700;
  monotonic_ns = 20;
  session_id = "boot-1";
  quality = record {
    epoch = "q1";
    status = degraded;
    offset_ns = some (negsuc 4);
    uncertainty_ns = some 9;
    evidence_age_ns = none;
  };
}

abbrev envelope : RawEnvelope
envelope = record {
  source = "bybit";
  stream = "candles";
  channel = "live";
  adapter_version = "v1";
  receipt = receipt;
  payload = 1 ∷ 2 ∷ [];
  subject = some (entity (record { kind = "asset"; namespace = "crypto"; value = "btc" }));
  source_time = some (record { value = pos 1_600; unit = millisecond });
  source_event_id = some "e1";
  source_sequence = some 7;
  content_sha256 = "00ff";
}

abbrev works : World
works = record {
  free_bytes = 1_000;
  queue_has_room = true;
  begins = true;
  writes = true;
  rolls_back = true;
}

abbrev fresh_intake : Intake
fresh_intake = record {
  producer = "node-1";
  epoch = "run-1";
  capacity = 8;
  max_payload_bytes = 100;
  metadata_headroom_bytes = 10;
  rows = [];
  sequence = 0;
  fatal = false;
  closing = false;
  closed = false;
}

abbrev stored_record : RawRecord
stored_record = record {
  identity = record { producer = "node-1"; epoch = "run-1"; offset = 1 };
  envelope = envelope;
}

abbrev later_requests : List (World × Call)
later_requests =
    (works, call_close)
    ∷ (works, call_restart "node-1" "run-2" 4 50 10)
    ∷ (works, call_records_after 0 3)
    ∷ []

accept_test : (accept hash works envelope fresh_intake).0 ≡ ok stored_record
unfolding accept submit store committed begun insert row_fits stored_row ingestion_id identifier
    decode_record stored_subject checked_subject stored_source_time unit_of status_of time_quality
    checked_envelope checked_event_id clock_sample lacks_evidence is_identifier rolled_back
accept_test = rw ((same_record_iff stored_record stored_record).1 refl) refl

full_disk_test :
    (accept hash (record works { free_bytes = 11 }) envelope fresh_intake).1 ≡ fresh_intake
unfolding accept submit store
full_disk_test = refl

fresh_intake-IsWhole : IsWhole hash fresh_intake
fresh_intake-IsWhole = record { ascending = omega arith; owned = tt; sound = tt }

stored_test : decode_record hash 100 (stored_row "node-1" "run-1" 1 envelope) ≡ ok stored_record
unfolding checked_subject identifier time_quality clock_sample checked_envelope checked_event_id
    ingestion_id
stored_test =
    unfold decode_record stored_row stored_subject stored_source_time unit_of status_of
      lacks_evidence is_identifier in
    refl

decode_record-stored_row_example :
    decode_record hash 100 (stored_row "node-1" "run-1" 1 envelope) ≡ ok stored_record
unfolding checked_subject identifier time_quality clock_sample checked_envelope checked_event_id
    ingestion_id
decode_record-stored_row_example =
    decode_record-stored_row hash 100 "node-1" "run-1" 1 envelope stored_record.identity
      (record {
        subject_made = refl;
        quality_made = refl;
        receipt_made = refl;
        envelope_made = refl;
      })
      refl

accept-Ends_example : Ends hash envelope fresh_intake (accept hash works envelope fresh_intake)
accept-Ends_example = accept-Ends hash works envelope fresh_intake

run_calls-Grows_example : Grows hash fresh_intake (run_calls hash later_requests fresh_intake)
run_calls-Grows_example = run_calls-Grows hash later_requests fresh_intake

accept-records_after_example :
    (rest : List RawRecord) × (records_after hash works 0 5
        (run_calls hash later_requests (accept hash works envelope fresh_intake).1)
      ≡ ok (stored_record ∷ rest))
unfolding accept submit store committed begun insert row_fits stored_row ingestion_id identifier
    decode_record stored_subject checked_subject stored_source_time unit_of status_of time_quality
    checked_envelope checked_event_id clock_sample lacks_evidence is_identifier rolled_back
    run_calls run_call restarted close open_intake is_owner
accept-records_after_example =
    accept-records_after hash works envelope fresh_intake stored_record later_requests works 4
      fresh_intake-IsWhole accept_test
      (rw ((same_record_iff stored_record stored_record).1 refl) refl)
      (rw ((same_record_iff stored_record stored_record).1 refl) (omega arith, tt))

abbrev kept_intake : Intake
kept_intake = record fresh_intake {
  rows = stored_row "node-1" "run-1" 1 envelope ∷ [];
  sequence = 1;
}

kept_intake-IsOrdered : IsOrdered hash kept_intake
unfolding stored_row
kept_intake-IsOrdered = record {
  ascending = (omega arith, omega arith);
  owned = (refl, tt);
  readable = ((stored_record, stored_test), tt);
}

read_all_ends_example :
    (records : List RawRecord) × (decoded hash 100 kept_intake.rows ≡ ok records)
    × (read_all hash works kept_intake (suc (length kept_intake.rows)) none ≡ ok (some records))
unfolding submit
read_all_ends_example = read_all_ends hash works kept_intake kept_intake-IsOrdered refl
