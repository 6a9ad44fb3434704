-- ===== src/Ingestion/Metadata/Rows.antt =====
-- src/scryntic/ingestion/sqlite_spool.py: the compare-and-swap on one recovery row.
use scryntic.Prelude.{
  ◌+◌, ◌≤◌, String, true, ◌≡◌, ◌≢◌, Option, none, some, List, [], ◌∷◌, arith, if◌then◌else◌, ok,
  length, ap, refl,
}
use scryntic.Prelude.Text.{str_eq, str_eq_iff}
use scryntic.Ingestion.Metadata.{
  Bytes, Spool, row, upsert, same_bytes, same_value, recovery_put, metadata_streams, metadata_bytes,
}

pub row-upsert :
    (k j : String) (v : Bytes) (rows : List (String × Bytes))
    → row j (upsert k v rows) ≡ (if str_eq k j then some v else row j rows)
unfolding row upsert
row-upsert k j v [] = refl
row-upsert k j v ((i, w) ∷ rows) =
    ground (arith, str_eq_iff i k, str_eq_iff i j, str_eq_iff k j, row-upsert k j v rows)

same_bytes-eq : (a b : Bytes) → same_bytes a b ≡ true → a ≡ b
unfolding same_bytes
same_bytes-eq [] [] h = refl
same_bytes-eq [] (b ∷ bs) h = cc
same_bytes-eq (a ∷ as') [] h = cc
same_bytes-eq (a ∷ as') (b ∷ bs) h = ground (arith, same_bytes-eq as' bs)

pub same_value-eq : (a b : Option Bytes) → same_value a b ≡ true → a ≡ b
unfolding same_value
same_value-eq none none h = refl
same_value-eq none (some b) h = cc
same_value-eq (some a) none h = cc
same_value-eq (some a) (some b) h = ap some (same_bytes-eq a b h)

length-upsert-new :
    (k : String) (v : Bytes) (rows : List (String × Bytes))
    → length (upsert k v rows) ≤ length rows + 1
unfolding upsert
length-upsert-new k v [] = omega arith
length-upsert-new k v ((i, w) ∷ rows) = ground (arith, length-upsert-new k v rows)

length-upsert-old :
    (k : String) (v : Bytes) (rows : List (String × Bytes))
    → row k rows ≢ none
    → length (upsert k v rows) ≡ length rows
unfolding upsert row
length-upsert-old k v [] h = absurd (h refl)
length-upsert-old k v ((i, w) ∷ rows) h = ground (arith, length-upsert-old k v rows)

-- A put that succeeds found exactly the expected value, writes its row, leaves every other row,
-- keeps the number of streams within the quota, and wrote a value within the size limit.
pub recovery_put_cas :
    (spool : Spool) (key : String) (value : Bytes) (expected : Option Bytes) (spool' : Spool)
    → recovery_put spool key value expected ≡ ok spool'
    → length spool.rows ≤ metadata_streams
    → (row key spool.rows ≡ expected)
      × ((j : String) → row j spool'.rows ≡ (if str_eq key j then some value else row j spool.rows))
      × (length spool'.rows ≤ metadata_streams)
      × (length value ≤ metadata_bytes)
unfolding recovery_put
recovery_put_cas spool key value expected spool' h k = (
  ground (arith, same_value-eq (row key spool.rows) expected),
  λ j. ground (arith, row-upsert key j value spool.rows),
  ground (arith, length-upsert-new key value spool.rows, length-upsert-old key value spool.rows),
  ground arith,
)
