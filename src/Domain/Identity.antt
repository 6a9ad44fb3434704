-- ===== src/Domain/Identity.antt =====
-- src/scryntic/domain/identity.py: who a record is about.
use scryntic.Prelude.{String, Bool, false, ◌&&◌, Result, ok, ◌>>◌}
use scryntic.Prelude.Text.{str_eq}
use scryntic.Domain.Validation.{identifier}

pub record InstrumentId : Type 0 where
  pub venue : String
  pub category : String
  pub symbol : String

pub record EntityId : Type 0 where
  pub kind : String
  pub namespace : String
  pub value : String

pub data SubjectId : Type 0 where
  instrument : InstrumentId → SubjectId
  entity : EntityId → SubjectId

unfoldable pub same_subject : SubjectId → SubjectId → Bool
same_subject (instrument a) (instrument b) =
    str_eq a.venue b.venue && (str_eq a.category b.category && str_eq a.symbol b.symbol)
same_subject (entity a) (entity b) =
    str_eq a.kind b.kind && (str_eq a.namespace b.namespace && str_eq a.value b.value)
same_subject _ _ = false

-- `InstrumentId(…)` and `EntityId(…)`
unfoldable pub checked_subject : SubjectId → Result SubjectId
checked_subject (instrument i) = do
  identifier i.venue
  identifier i.category
  identifier i.symbol
  ok (instrument i)
checked_subject (entity e) = do
  identifier e.kind
  identifier e.namespace
  identifier e.value
  ok (entity e)
