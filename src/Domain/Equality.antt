-- ===== src/Domain/Equality.antt =====
-- src/scryntic/domain: `==` of raw records, which dataclasses compare field by field.
use native.Mathlib.Decide.{ℕ_discrete}
use mathlib.Core.Bool.{false≢true}
use scryntic.Prelude.{Bool, true, false, ◌≡◌, ◌↔◌, refl}
use scryntic.Prelude.Int.{ℤ}
use scryntic.Prelude.Text.{String_discrete}
use scryntic.Domain.Identity.{SubjectId, InstrumentId, EntityId}
use scryntic.Domain.Time.{ClockSample, TimeQuality, SourceTime}
use scryntic.Domain.Raw.{RawEnvelope, RawRecord, IngestionId}

ℤ_discrete : Discrete ℤ
ℤ_discrete = hlevel ℕ_discrete

InstrumentId_discrete : Discrete InstrumentId
InstrumentId_discrete = hlevel String_discrete

EntityId_discrete : Discrete EntityId
EntityId_discrete = hlevel String_discrete

SubjectId_discrete : Discrete SubjectId
SubjectId_discrete = hlevel (InstrumentId_discrete, EntityId_discrete)

TimeQuality_discrete : Discrete TimeQuality
TimeQuality_discrete = hlevel (String_discrete, ℤ_discrete, ℕ_discrete)

ClockSample_discrete : Discrete ClockSample
ClockSample_discrete = hlevel (String_discrete, ℤ_discrete, ℕ_discrete, TimeQuality_discrete)

SourceTime_discrete : Discrete SourceTime
SourceTime_discrete = hlevel ℤ_discrete

RawEnvelope_discrete : Discrete RawEnvelope
RawEnvelope_discrete =
    hlevel
      (String_discrete, ℕ_discrete, ClockSample_discrete, SubjectId_discrete, SourceTime_discrete)

IngestionId_discrete : Discrete IngestionId
IngestionId_discrete = hlevel (String_discrete, ℕ_discrete)

RawRecord_discrete : Discrete RawRecord
RawRecord_discrete = hlevel (IngestionId_discrete, RawEnvelope_discrete)

pub same_record : RawRecord → RawRecord → Bool
same_record a b = elim (RawRecord_discrete a b) [ yes _ ↦ true | no _ ↦ false ]

pub same_record_iff : (a b : RawRecord) → (same_record a b ≡ true) ↔ (a ≡ b)
unfolding same_record
same_record_iff a b =
    elim (RawRecord_discrete a b)
      as (λ d. ((elim d [ yes _ ↦ true | no _ ↦ false ]) ≡ true) ↔ (a ≡ b)) [
        | yes same ↦ (λ h. same, λ e. refl)
        | no other ↦ (λ h. absurd (false≢true h), λ e. absurd (other e))
      ]
