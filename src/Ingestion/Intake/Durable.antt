-- ===== src/Ingestion/Intake/Durable.antt =====
-- src/scryntic/ingestion/sqlite_spool.py: the reading of what was accepted.
use scryntic.Prelude.{
  ℕ, zero, suc, ◌<◌, ◌≡◌, ◌∙◌, String, true, false, List, [], ◌∷◌, ◌++◌, arith, All, ok, refl, inl,
  inr, sym, ap, subst, All-imp, All-keep, ltb, keep, ◌≤◌, length,
}
use scryntic.Prelude.Text.{str_eq, str_eq_iff}
use scryntic.Domain.Raw.{RawEnvelope, RawRecord}
use scryntic.Ingestion.Stored.{StoredRow, decode_record}
use scryntic.Ingestion.Stored.Limit.{decode_record-limit}
use scryntic.Ingestion.Intake.{
  World, Intake, submit, accept, page, is_after, decoded, read, read_as, records_after, Call,
  run_calls,
}
use scryntic.Ingestion.Intake.Order.{accept-Ends}
use scryntic.Ingestion.Intake.Growth.{
  IsAscending, keep-IsAscending, keep-append, append_assoc, Readable, IsWhole, IsWhole-IsOrdered,
  accepted-Grows, run_calls-Grows,
}

module _ (sha256 : List ℕ → String) where
  pub decoded-All :
      (max_payload : ℕ) (rows : List StoredRow)
      → All (Readable sha256 max_payload) rows
      → (records : List RawRecord) × (decoded sha256 max_payload rows ≡ ok records)
  unfolding decoded
  decoded-All max_payload [] h = ([], refl)
  decoded-All max_payload (row ∷ rows) h =
      let (records, rest) = decoded-All max_payload rows h.1 in
      let (r, first) = h.0 in (r ∷ records, rw first (rw rest refl))

  All-page :
      (P : StoredRow → Type 0) (n : ℕ) (rows : List StoredRow) → All P rows → All P (page n rows)
  unfolding page
  All-page P zero rows h = tt
  All-page P (suc n) [] h = tt
  All-page P (suc n) (r ∷ rows) h = (h.0, All-page P n rows h.1)

  All-right : (P : StoredRow → Type 0) (a b : List StoredRow) → All P (a ++ b) → All P b
  All-right P [] b h = h
  All-right P (x ∷ a) b h = All-right P a b h.1

  -- the SELECT that begins at a row finds it first
  pub selected_first :
      (producer : String) (n : ℕ) (limit : ℕ) (before after : List StoredRow) (row : StoredRow)
      → IsAscending 0 before n
      → n < row.offset
      → row.producer ≡ producer
      → page (suc limit) (keep (is_after producer n) (before ++ row ∷ after))
        ≡ row ∷ page limit (keep (is_after producer n) after)
  unfolding page
  selected_first producer n limit before after row low high own =
      let none_before = keep-IsAscending producer 0 before n n low (omega arith) in
      let its_own : str_eq row.producer producer ≡ true =
        (str_eq_iff row.producer producer).1 own in
      let later : ltb n row.offset ≡ true = ground arith in
      rw (keep-append (is_after producer n) before (row ∷ after))
        (rw none_before (rw its_own (rw later refl)))

  pub read_first :
      (t : Intake) (reader : World) (n limit : ℕ) (before after : List StoredRow) (row : StoredRow)
      (r : RawRecord)
      → submit reader t ≡ ok tt
      → t.rows ≡ before ++ row ∷ after
      → IsAscending 0 before n
      → n < row.offset
      → row.producer ≡ t.producer
      → decode_record sha256 t.max_payload_bytes row ≡ ok r
      → All (Readable sha256 t.max_payload_bytes) after
      → (rest : List RawRecord) × (records_after sha256 reader n (suc limit) t ≡ ok (r ∷ rest))
  unfolding records_after read read_as decoded
  read_first t reader n limit before after row r ready rows low high own first good =
      let positive : ltb (suc limit) 1 ≡ false = ground arith in
      let p = is_after t.producer n in
      let chosen = All-page _ limit (keep p after) (
        All-keep (Readable sha256 t.max_payload_bytes) p after (All-imp (λ x h _. h) after good)) in
      let (rest, told) = decoded-All t.max_payload_bytes (page limit (keep p after)) chosen in
      let found : page (suc limit) (keep p t.rows) ≡ row ∷ page limit (keep p after) =
        ap (λ l. page (suc limit) (keep p l)) rows
        ∙ selected_first t.producer n limit before after row low high own in
      (rest, rw positive (rw ready (rw found (rw first (rw told refl)))))

  -- What `accept` has returned is read again: after any calls and restarts of the spool, each
  -- restart with settings of its own, a reader that asks for the records after the offset that was
  -- last before it is given it first, and the reading returns. This is so if before the call the
  -- rows were in order and each decoded under a limit of its payload's length, and if at the reading
  -- the spool is open and its limit on payloads is not below a payload that it has stored.
  pub accept-records_after :
      (w : World) (e : RawEnvelope) (s : Intake) (r : RawRecord) (cs : List (World × Call))
      (reader : World) (limit : ℕ)
      → IsWhole sha256 s
      → (accept sha256 w e s).0 ≡ ok r
      → submit reader (run_calls sha256 cs (accept sha256 w e s).1) ≡ ok tt
      → All
          (λ row.
            length row.payload ≤ (run_calls sha256 cs (accept sha256 w e s).1).max_payload_bytes)
          (run_calls sha256 cs (accept sha256 w e s).1).rows
      → (rest : List RawRecord) × (records_after sha256 reader s.sequence
            (suc limit)
            (run_calls sha256 cs (accept sha256 w e s).1)
          ≡ ok (r ∷ rest))
  accept-records_after w e s r cs reader limit o did ready room =
      let s1 = (accept sha256 w e s).1 in
      let t = run_calls sha256 cs s1 in
      elim (accept-Ends sha256 w e s) [
        | inr (x, raised, left) ↦ absurd (cc)
        | inl (r', row, did', k) ↦
            (let later = run_calls-Grows sha256 cs s1 in
              let first = accepted-Grows sha256 e s s1 r' row k in
              let whole = later.stays_whole (first.stays_whole o) in
              let rows : t.rows ≡ s.rows ++ row ∷ later.new_rows =
                later.rows_grow
                ∙ ap (λ (y : Intake). y.rows ++ later.new_rows) k.left
                ∙ append_assoc s.rows (row ∷ []) later.new_rows in
              let owner : t.producer ≡ s.producer = later.same_producer ∙ first.same_producer in
              let good : All (Readable sha256 t.max_payload_bytes) (row ∷ later.new_rows) =
                All-right _ s.rows (row ∷ later.new_rows) (
                  subst (All (Readable sha256 t.max_payload_bytes)) rows
                    (IsWhole-IsOrdered sha256 t whole room).readable) in
              let fits : length row.payload ≤ t.max_payload_bytes =
                (All-right (λ x. length x.payload ≤ t.max_payload_bytes) s.rows
                  (row ∷ later.new_rows)
                  (subst (All (λ x. length x.payload ≤ t.max_payload_bytes)) rows room)).0 in
              read_first t reader s.sequence limit s.rows later.new_rows row r ready rows
                o.ascending (omega (arith, k.row_offset)) (k.row_producer ∙ sym owner)
                ((decode_record-limit sha256 s.max_payload_bytes t.max_payload_bytes row r
                    (k.decodes ∙ sym did' ∙ did)).1
                  fits)
                good.1)
      ]
