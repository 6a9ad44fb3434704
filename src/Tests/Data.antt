-- ===== src/Tests/Data.antt =====
-- Values of src/scryntic/domain and src/scryntic/recovery that the examples share.
use scryntic.Prelude.{ℕ, false, true, Option, none, some, [], ◌∷◌}
use scryntic.Prelude.Int.{ℤ, pos}
use scryntic.Domain.Raw.{RawRecord}
use scryntic.Domain.Time.{ClockSample, unknown}
use scryntic.Recovery.Coverage.Contracts.{
  RecoveryStream, Family, candle, Recovery, backfill, CoverageSpan, CoverageSnapshot, Status,
  CandleEvidence, baseline,
}
use scryntic.Recovery.Coverage.Ledger.{Codec, Document, Ledger}

abbrev pub receipt : ClockSample
receipt = record {
  wall_time_ns = pos 100;
  monotonic_ns = 100;
  session_id = "boot-1";
  quality = record {
    epoch = "monitor:1";
    status = unknown;
    offset_ns = none;
    uncertainty_ns = none;
    evidence_age_ns = none;
  };
}

abbrev pub stream : Family → Recovery → RecoveryStream
stream family recovery = record {
  key = "btc";
  source = "venue";
  stream = "ws-1";
  channel = "public";
  subject = none;
  family = family;
  recovery = recovery;
}

abbrev pub raw : Option ℕ → ℕ → RawRecord
raw sequence offset = record {
  identity = record { producer = "host"; epoch = "run-1"; offset = offset };
  envelope = record {
    source = "venue";
    stream = "ws-1";
    channel = "public";
    adapter_version = "1";
    receipt = receipt;
    payload = 123 ∷ 125 ∷ [];
    subject = none;
    source_time = none;
    source_event_id = none;
    source_sequence = sequence;
    content_sha256 = "";
  };
}

abbrev pub span : Status → ℤ → Option ℤ → CoverageSpan
span status start end = record {
  start_ns = start;
  end_ns = end;
  status = status;
  reason = "candle-gap";
  detected = receipt;
  checkpoint_offset = pos 0;
  first_sequence = none;
  last_sequence = none;
  cursor = none;
  repaired = [];
  pages = pos 0;
  attempts = pos 0;
}

abbrev pub candle_at : ℤ → CandleEvidence
candle_at start = record {
  start_ns = start;
  interval_ns = 10;
  finalized = true;
  market_sha256 = some "aa";
}

-- a codec that restores one document
abbrev pub codec_of : Document → Codec
codec_of d = record { dumps = λ e. 123 ∷ 125 ∷ []; loads = λ bytes. some d }

abbrev pub ledger : Family → Recovery → CoverageSnapshot → Ledger
ledger family recovery snapshot = record {
  spool = record { rows = []; writable = true };
  stream = stream family recovery;
  stored = none;
  failed = false;
  snapshot = snapshot;
}

abbrev pub codec : Codec
codec = codec_of (record { version = 1; stream = stream candle backfill; state = baseline (pos 0) })
