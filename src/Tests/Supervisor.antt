-- ===== src/Tests/Supervisor.antt =====
-- src/scryntic/recovery/supervisor.py: a gap of two candles, of which a round repairs the first
-- while the live side goes on.
use scryntic.Recovery.Coverage.Observe.{dict_update, dict_get}
use scryntic.Clock.Policy.{time_interval}
use scryntic.Domain.Identity.{checked_subject}
use scryntic.Domain.Validation.{is_identifier, identifier}
use scryntic.Ingestion.Stored.{
  status_of, unit_of, stored_source_time, stored_subject, decode_record, stored_row, row_fits,
}
use scryntic.Prelude.Action.{after}
use scryntic.Clock.Policy.{is_final}
use scryntic.Prelude.{
  ◌≡◌, ℕ, String, true, false, Option, none, some, List, [], ◌∷◌, ok, refl, All, Any,
}
use scryntic.Prelude.Int.{◌+ℤ◌, ◌-ℤ◌, pos}
use scryntic.Domain.Raw.{checked_event_id, checked_envelope, ingestion_id, RawEnvelope, RawRecord}
use scryntic.Domain.Equality.{same_record_iff}
use scryntic.Domain.Time.{lacks_evidence, clock_sample, time_quality, ClockSample, healthy}
use scryntic.Clock.Contracts.{ClockLimits}
use scryntic.Ingestion.Intake.{insert, begun, committed, store, submit, accept, World}
use scryntic.Recovery.Coverage.Contracts.{
  matches, candle, backfill, pending, CandleEvidence, baseline,
}
use scryntic.Recovery.Supervisor.{
  known_candle, has_interval, final_candle, parsed_candle, Setup, Supervisor, SupervisorState,
  stop_intake, spool_accept,
}
use scryntic.Recovery.Supervisor.Repair.{
  collect, repaired_as, accept_row, repair_action, checked_action, repair_row, run_events, Task,
  live_call, repair_round, ingested, lost, stopped, Event, nothing, then_next, Turn, Fetch,
  Collected, run_tasks, repair_rows,
}
use scryntic.Recovery.Supervisor.Lease.{Restores, run_tasks-Restores}
use scryntic.Recovery.Supervisor.Evidence.{Proves, looked_at}
use scryntic.Recovery.Supervisor.Proof.{repair_rows-Proves}
use scryntic.Tests.Data.{receipt, raw, span, codec, ledger}

abbrev fingerprint : List ℕ → String
fingerprint payload = "00ff"

abbrev sampled : ClockSample
sampled = record receipt {
  quality = record {
    epoch = "monitor:1";
    status = healthy;
    offset_ns = some (pos 0);
    uncertainty_ns = some 1;
    evidence_age_ns = some 0;
  };
}

abbrev candle_row : RawEnvelope
candle_row = record (raw none 1).envelope { receipt = sampled; content_sha256 = "00ff" }

abbrev parsed_row : RawEnvelope → Option CandleEvidence
parsed_row envelope =
    some (record { start_ns = pos 20; interval_ns = 10; finalized = true; market_sha256 = none })

abbrev clock_limits : ClockLimits
clock_limits = record {
  max_offset_ns = 50;
  max_uncertainty_ns = 50;
  max_evidence_age_ns = 100;
  max_step_ns = 50;
  max_sample_gap_ns = 100;
  holdover_drift_ppb = 1_000;
}

abbrev candle_setup : Setup
candle_setup = record {
  reporting = false;
  resnapshots = false;
  source_payload_bytes = 100;
  history = some (record { max_page_records = 4; max_payload_bytes = 100 });
  candle_parser = some parsed_row;
  book_parser = none;
  interval_ns = some 10;
  limits = record { page_records = 4; max_pages = 64; max_candles = 256; max_rejections = 16 };
  clock_limits = clock_limits;
}

abbrev gap_supervisor : Supervisor
gap_supervisor = record {
  ledger =
      ledger candle backfill
        (record (baseline (pos 0)) { spans = span pending (pos 20) (some (pos 40)) ∷ [] });
  intake = record {
    producer = "node-1";
    epoch = "run-1";
    capacity = 8;
    max_payload_bytes = 100;
    metadata_headroom_bytes = 10;
    rows = [];
    sequence = 0;
    fatal = false;
    closing = false;
    closed = false;
  };
  budget = record {
    capacity_records = 10;
    capacity_bytes = 1_000;
    reserve_records = 4;
    reserve_bytes = 400;
    records = 0;
    bytes = 0;
    request_interval = 50;
    next_request = 0;
  };
  state = SupervisorState.starting;
  rejections = 0;
  closed = false;
  snapshot_required = false;
  snapshot_attempts = 0;
}

abbrev open_world : World
open_world = record {
  free_bytes = 1_000;
  queue_has_room = true;
  begins = true;
  writes = true;
  rolls_back = true;
}

-- a live candle, while whose wait for the lock another task reports a loss
abbrev live_candle : Event
live_candle = ingested open_world candle_row nothing (then_next (lost "stall" receipt) nothing)

abbrev page_turns : List Turn
page_turns =
    record {
      world = open_world;
      envelope = candle_row;
      at_lock = then_next live_candle nothing;
      at_spool = then_next stopped nothing;
      after_spool = nothing;
    }
    ∷ []

abbrev round : Fetch
round = record {
  now = 7;
  at_start = nothing;
  at_attempt = nothing;
  meanwhile = then_next live_candle nothing;
  answer = ok (record { turns = page_turns; next_cursor = none; at_record = nothing });
}

abbrev tasks : List Task
tasks = repair_round round ∷ live_call live_candle ∷ live_call stopped ∷ []

run_tasks-Restores_example :
    Restores gap_supervisor.budget
      (run_tasks codec fingerprint candle_setup tasks gap_supervisor).budget
run_tasks-Restores_example = run_tasks-Restores codec fingerprint candle_setup tasks gap_supervisor

abbrev stopped_supervisor : Supervisor
stopped_supervisor = record gap_supervisor { closed = true; state = SupervisorState.stopping }

abbrev nothing_yet : Collected
nothing_yet = record { proven = []; final_candles = []; raw_offset = pos 0 }

stop_intake_test : stop_intake gap_supervisor ≡ stopped_supervisor
unfolding stop_intake
stop_intake_test = refl

abbrev final_turns : List Turn
final_turns =
    record {
      world = open_world;
      envelope = candle_row;
      at_lock = nothing;
      at_spool = nothing;
      after_spool = nothing;
    }
    ∷ []

abbrev first_proven : Collected
first_proven = record { proven = pos 20 ∷ []; final_candles = []; raw_offset = pos 1 }

abbrev stored_candle : RawRecord
stored_candle = record {
  identity = record { producer = "node-1"; epoch = "run-1"; offset = 1 };
  envelope = candle_row;
}

rows_test :
    (repair_rows codec fingerprint candle_setup 0
      (pos 20)
      (pos 40)
      final_turns
      nothing_yet
      gap_supervisor).0
    ≡ ok first_proven
unfolding repair_rows run_events repair_row checked_action repair_action parsed_candle final_candle
    has_interval known_candle is_final accept_row spool_accept repaired_as collect after accept
    submit store committed begun insert row_fits stored_row ingestion_id identifier decode_record
    stored_subject checked_subject stored_source_time unit_of status_of time_quality
    checked_envelope checked_event_id clock_sample lacks_evidence is_identifier matches
    time_interval dict_get dict_update ◌+ℤ◌ ◌-ℤ◌
rows_test = rw ((same_record_iff stored_candle stored_candle).1 refl) refl

repair_rows-Proves_example :
    All
      (λ x. Any (Proves candle_setup (pos 20) (pos 40) x) (
        looked_at codec fingerprint candle_setup 0
          (pos 20)
          (pos 40)
          final_turns
          nothing_yet
          gap_supervisor))
      first_proven.proven
repair_rows-Proves_example =
    repair_rows-Proves codec fingerprint candle_setup 0 (pos 20) (pos 40) (pos 0) final_turns
      gap_supervisor first_proven rows_test
