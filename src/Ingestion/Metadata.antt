-- ===== src/Ingestion/Metadata.antt =====
-- src/scryntic/ingestion/sqlite_spool.py: `recovery_get` and `recovery_put`, on the rows of the
-- SQLite table `recovery_state`. One transaction is one step, since the spool's writer thread is
-- the only one that has the connection. `writable` is false where the writer has failed, its queue
-- is full, or SQLite cannot commit: such a call raises and is rolled back.
pub mod Rows
use scryntic.Prelude.{
  ℕ, String, Bool, true, false, not, ◌&&◌, ◌||◌, Option, none, some, List, [], ◌∷◌, ltb, leb, ◌==◌,
  if◌then◌else◌, Result, ok, err, ingestion_error, value_error, refuse, require, ◌>>=◌, ◌>>◌,
  length,
}
use scryntic.Prelude.Text.{str_eq}
use scryntic.Domain.Validation.{identifier}

abbrev pub Bytes : Type 0
Bytes = List ℕ

pub record Spool : Type 0 where
  pub rows : List (String × Bytes)
  pub writable : Bool

abbrev pub metadata_bytes : ℕ
metadata_bytes = 65_536

abbrev pub metadata_streams : ℕ
metadata_streams = 64

unfoldable pub row : String → List (String × Bytes) → Option Bytes
row key [] = none
row key ((k, v) ∷ rows) = if str_eq k key then some v else row key rows

-- `INSERT … ON CONFLICT(key) DO UPDATE`
unfoldable pub upsert : String → Bytes → List (String × Bytes) → List (String × Bytes)
upsert key value [] = (key, value) ∷ []
upsert key value ((k, v) ∷ rows) =
    if str_eq k key then (key, value) ∷ rows else (k, v) ∷ upsert key value rows

unfoldable pub same_bytes : Bytes → Bytes → Bool
same_bytes [] [] = true
same_bytes (a ∷ as') (b ∷ bs) = a == b && same_bytes as' bs
same_bytes _ _ = false

unfoldable pub same_value : Option Bytes → Option Bytes → Bool
same_value none none = true
same_value (some a) (some b) = same_bytes a b
same_value _ _ = false

is_none : Option Bytes → Bool
is_none none = true
is_none (some v) = false

too_long : Option Bytes → Bool
too_long none = false
too_long (some v) = ltb metadata_bytes (length v)

abbrev pub changed : Result Spool
changed = err (ingestion_error "Recovery metadata changed or could not commit")

-- `_write_recovery` inside `_recovery`: whatever it raises is rolled back and raised as one error
write_recovery : Spool → String → Bytes → Option Bytes → Option Bytes → Result Spool
unfolding is_none same_value
write_recovery spool key value expected prior =
    if not (same_value prior expected)
    then changed
    else if is_none prior && leb metadata_streams (length spool.rows)
    then changed
    else ok (record spool { rows = upsert key value spool.rows })

unfoldable pub recovery_get : Spool → String → Result (Option Bytes)
recovery_get spool key = do
  identifier key
  if spool.writable
      then ok (row key spool.rows)
      else err (ingestion_error "Recovery metadata changed or could not commit")

unfoldable pub recovery_put : Spool → String → Bytes → Option Bytes → Result Spool
unfolding write_recovery too_long
recovery_put spool key value expected = do
  identifier key
  refuse (length value == 0 || ltb metadata_bytes (length value))
      (value_error "Recovery metadata exceeds limit")
  refuse (too_long expected) (value_error "Invalid recovery compare value")
  if spool.writable then write_recovery spool key value expected (row key spool.rows) else changed
