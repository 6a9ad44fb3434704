-- ===== src/Tests/Calls.antt =====
-- src/scryntic/recovery/coverage.py: sequences of calls at concrete values.
use scryntic.Prelude.{◌≡◌, Bool, true, false, none, some, List, [], ◌∷◌, ok, refl, arith, map}
use scryntic.Prelude.Int.{pos}
use scryntic.Domain.Validation.{identifier}
use scryntic.Ingestion.Metadata.{recovery_put, row}
use scryntic.Recovery.Coverage.Contracts.{candle, backfill, baseline, unknown}
use scryntic.Recovery.Coverage.Ledger.{
  started, save, begin, Codec, Ledger, open_ledger, is_valid_snapshot, is_valid_span,
  is_valid_evidence,
}
use scryntic.Recovery.Coverage.Ledger.Extends.{cause}
use scryntic.Recovery.Coverage.Calls.{
  Call, call_begin, call_finish, call_observed, run_call, run_calls,
}
use scryntic.Recovery.Coverage.Calls.Invariant.{IsSound, run_calls-IsSound, run_calls-failed}
use scryntic.Recovery.Coverage.Calls.Stored.{open_ledger-run_call}
use scryntic.Tests.Data.{receipt, raw, candle_at, codec, codec_of, ledger, span}

abbrev opened : Ledger
opened = ledger candle backfill (baseline (pos 0))

opened-IsSound : IsSound opened
unfolding row
opened-IsSound = record { fail_closed = λ f. refl; bounded = omega arith; in_step = refl }

-- the writer fails at the third call
abbrev session : List (Call × Bool)
session =
    (call_begin receipt, true)
    ∷ (call_observed (raw none 1) (some (candle_at (pos 0))), true)
    ∷ (call_observed (raw none 2) (some (candle_at (pos 30))), false)
    ∷ (call_finish, true)
    ∷ []

run_calls-IsSound_example : IsSound (run_calls codec session opened)
run_calls-IsSound_example = run_calls-IsSound codec session opened opened-IsSound

abbrev failed_ledger : Ledger
failed_ledger = record opened {
  failed = true;
  snapshot = record opened.snapshot { spans = span unknown (pos 0) none ∷ [] };
}

run_calls-failed_example :
    ((run_calls codec session failed_ledger).spool.rows ≡ [])
    × ((run_calls codec session failed_ledger).failed ≡ true)
    × (map cause (run_calls codec session failed_ledger).snapshot.spans
        ≡ map cause failed_ledger.snapshot.spans)
run_calls-failed_example = run_calls-failed codec session failed_ledger refl

abbrev begun : Codec → Ledger
begun c = (run_call c (call_begin receipt) opened).1

-- a codec that restores the document that `begin` stores
abbrev begin_codec : Codec
begin_codec = codec_of (record {
  version = 1;
  stream = opened.stream;
  state = record (baseline (pos 0)) { active = true };
})

open_ledger-run_call_example :
    open_ledger begin_codec (begun begin_codec).spool (begun begin_codec).stream (pos 0)
    ≡ ok (begun begin_codec)
unfolding run_call begin save recovery_put identifier row started is_valid_snapshot is_valid_span
    is_valid_evidence
open_ledger-run_call_example =
    open_ledger-run_call begin_codec (call_begin receipt) opened (pos 0) {u = tt} refl
      opened-IsSound refl refl refl refl
