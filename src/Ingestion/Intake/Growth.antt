-- ===== src/Ingestion/Intake/Growth.antt =====
-- src/scryntic/ingestion/sqlite_spool.py: the rows after any calls and restarts.
use scryntic.Prelude.{
  ℕ, ◌≤◌, ◌<◌, ◌≡◌, ◌∙◌, String, Bool, true, false, ◌&&◌, ◌||◌, List, [], ◌∷◌, ◌++◌, arith, All,
  Result, ok, err, refl, inl, inr, some, sym, ap, subst, >>-returns, All-append, ltb, ok_same,
  require, refuse, ingestion_error, if◌then◌else◌, keep, value_error, all, length,
}
use scryntic.Prelude.Text.{str_eq, str_eq_iff}
use scryntic.Domain.Raw.{RawEnvelope, RawRecord}
use scryntic.Domain.Validation.{identifier}
use scryntic.Ingestion.Stored.{StoredRow, decode_record}
use scryntic.Ingestion.Stored.Limit.{decode_record-limit}
use scryntic.Ingestion.Intake.{
  World, Intake, accept, close, open_intake, is_owner, is_after, restarted, Call, call_accept,
  call_records_after, call_close, call_restart, run_call, run_calls,
}
use scryntic.Ingestion.Intake.Order.{IsAccepted, accept-Ends}

-- The offsets rise, from above the first bound to the second.
abbrev pub IsAscending : ℕ → List StoredRow → ℕ → Type 0
IsAscending low [] top = low ≤ top
IsAscending low (r ∷ rows) top = (low < r.offset) × IsAscending r.offset rows top

IsAscending-bound :
    (low : ℕ) (rows : List StoredRow) (top : ℕ) → IsAscending low rows top → low ≤ top
IsAscending-bound low [] top h = h
IsAscending-bound low (r ∷ rows) top h = omega (arith, h.0, IsAscending-bound r.offset rows top h.1)

pub IsAscending-append :
    (low : ℕ) (rows : List StoredRow) (top : ℕ) (r : StoredRow)
    → IsAscending low rows top
    → top < r.offset
    → IsAscending low (rows ++ r ∷ []) r.offset
IsAscending-append low [] top r h k = (omega arith, omega arith)
IsAscending-append low (x ∷ rows) top r h k = (h.0, IsAscending-append x.offset rows top r h.1 k)

pub keep-IsAscending :
    (producer : String) (low : ℕ) (rows : List StoredRow) (top : ℕ) (n : ℕ)
    → IsAscending low rows top
    → top ≤ n
    → keep (is_after producer n) rows ≡ []
keep-IsAscending producer low [] top n h k = refl
keep-IsAscending producer low (r ∷ rows) top n h k =
    let small = IsAscending-bound r.offset rows top h.1 in
    let rest = keep-IsAscending producer r.offset rows top n h.1 k in ground arith

pub keep-append :
    (p : StoredRow → Bool) (a b : List StoredRow) → keep p (a ++ b) ≡ keep p a ++ keep p b
keep-append p [] b = refl
keep-append p (r ∷ a) b = let rest = keep-append p a b in ground arith

pub append_assoc : (a b c : List StoredRow) → (a ++ b) ++ c ≡ a ++ (b ++ c)
append_assoc [] b c = refl
append_assoc (x ∷ a) b c = ap (λ l. x ∷ l) (append_assoc a b c)

pub append_nil : (a : List StoredRow) → a ++ [] ≡ a
append_nil [] = refl
append_nil (x ∷ a) = ap (λ l. x ∷ l) (append_nil a)

module _ (sha256 : List ℕ → String) where
  abbrev pub Readable : ℕ → StoredRow → Type 0
  Readable max_payload row = (r : RawRecord) × (decode_record sha256 max_payload row ≡ ok r)

  -- The offsets rise up to the last one, the rows are the producer's, and each decodes.
  pub record IsOrdered (s : Intake) : Type 0 where
    pub ascending : IsAscending 0 s.rows s.sequence
    pub owned : All (λ r. r.producer ≡ s.producer) s.rows
    pub readable : All (Readable s.max_payload_bytes) s.rows

  -- The offsets rise up to the last one, the rows are the producer's, and each decodes, where no
  -- limit on payloads is below its own payload's length.
  pub record IsWhole (s : Intake) : Type 0 where
    pub ascending : IsAscending 0 s.rows s.sequence
    pub owned : All (λ r. r.producer ≡ s.producer) s.rows
    pub sound : All (λ r. Readable (length r.payload) r) s.rows

  sound-Readable :
      (n : ℕ) (rows : List StoredRow)
      → All (λ r. length r.payload ≤ n) rows
      → All (λ r. Readable (length r.payload) r) rows
      → All (Readable n) rows
  sound-Readable n [] h k = tt
  sound-Readable n (row ∷ rows) h k =
      let (r, decodes) = k.0 in
      (
        (r, (decode_record-limit sha256 (length row.payload) n row r decodes).1 h.0),
        sound-Readable n rows h.1 k.1,
      )

  -- Where no payload is over the limit of the state, its rows are in order.
  pub IsWhole-IsOrdered :
      (s : Intake)
      → IsWhole s
      → All (λ r. length r.payload ≤ s.max_payload_bytes) s.rows
      → IsOrdered s
  IsWhole-IsOrdered s h k = record {
    ascending = h.ascending;
    owned = h.owned;
    readable = sound-Readable s.max_payload_bytes s.rows k h.sound;
  }

  -- A later state has the rows of an earlier one, and more after them.
  pub record Grows (s s' : Intake) : Type 0 where
    pub new_rows : List StoredRow
    pub rows_grow : s'.rows ≡ s.rows ++ new_rows
    pub same_producer : s'.producer ≡ s.producer
    pub stays_whole : IsWhole s → IsWhole s'

  Grows-refl : (s : Intake) → Grows s s
  Grows-refl s = record {
    new_rows = [];
    rows_grow = sym (append_nil s.rows);
    same_producer = refl;
    stays_whole = λ h. h;
  }

  Grows-trans : {a b c : Intake} → Grows a b → Grows b c → Grows a c
  Grows-trans {a} h k = record {
    new_rows = h.new_rows ++ k.new_rows;
    rows_grow =
        k.rows_grow
        ∙ ap (λ l. l ++ k.new_rows) h.rows_grow
        ∙ append_assoc a.rows h.new_rows k.new_rows;
    same_producer = k.same_producer ∙ h.same_producer;
    stays_whole = λ o. k.stays_whole (h.stays_whole o);
  }

  pub accepted-Grows :
      (e : RawEnvelope) (s s' : Intake) (r : RawRecord) (row : StoredRow)
      → IsAccepted sha256 e s s' r row
      → Grows s s'
  accepted-Grows e s s' r row k = subst (Grows s) (sym k.left) (record {
    new_rows = row ∷ [];
    rows_grow = refl;
    same_producer = refl;
    stays_whole = λ o. record {
      ascending =
          subst (IsAscending 0 (s.rows ++ row ∷ [])) k.row_offset
            (IsAscending-append 0 s.rows s.sequence row o.ascending (omega (arith, k.row_offset)));
      owned = All-append _ s.rows (row ∷ []) o.owned (k.row_producer, tt);
      sound = All-append _ s.rows (row ∷ []) o.sound (
        (
          r,
          (decode_record-limit sha256 s.max_payload_bytes (length row.payload) row r k.decodes).1
              (omega arith),
        ),
        tt,
      );
    };
  })

  -- A state that differs in nothing that the rows depend on.
  Same-Grows :
      (s s' : Intake)
      → s'.rows ≡ s.rows
      → s'.sequence ≡ s.sequence
      → s'.producer ≡ s.producer
      → Grows s s'
  Same-Grows s s' rows sequence producer = record {
    new_rows = [];
    rows_grow = rows ∙ sym (append_nil s.rows);
    same_producer = producer;
    stays_whole = λ o. record {
      ascending = rw rows (rw sequence o.ascending);
      owned = rw rows (rw producer o.owned);
      sound = rw rows o.sound;
    };
  }

  accept-Grows : (w : World) (e : RawEnvelope) (s : Intake) → Grows s (accept sha256 w e s).1
  accept-Grows w e s = elim (accept-Ends sha256 w e s) [
    | inl (r, row, did, k) ↦ accepted-Grows e s _ r row k
    | inr (x, raised, left) ↦
        Same-Grows s _ (ap (λ (y : Intake). y.rows) left) (ap (λ (y : Intake). y.sequence) left)
          (ap (λ (y : Intake). y.producer) left)
  ]

  owner_same : (producer owner : String) → is_owner producer (some owner) ≡ true → producer ≡ owner
  unfolding is_owner
  owner_same producer owner h = sym ((str_eq_iff owner producer).0 h)

  open_intake-same :
      (producer epoch : String) (capacity max_payload headroom : ℕ) (owner : String)
      (rows : List StoredRow) (sequence : ℕ) (s : Intake)
      → open_intake producer epoch capacity max_payload headroom
          (record { owner = some owner; rows = rows; sequence = sequence })
        ≡ ok s
      → (s.rows ≡ rows) × (s.sequence ≡ sequence) × (s.producer ≡ owner)
  unfolding open_intake
  open_intake-same producer epoch capacity max_payload headroom owner rows sequence s h =
      let (h1, a) = >>-returns (identifier producer) h in
      let (h2, b) = >>-returns (identifier epoch) h1 in
      let (h3, c) =
        >>-returns
          (refuse (ltb capacity 1 || (ltb max_payload 1 || ltb headroom 1))
            (value_error "Integer below allowed minimum"))
          h2 in
      let (h4, d) =
        >>-returns
          (require (is_owner producer (some owner) && all (λ r. str_eq r.producer producer) rows)
            (ingestion_error "Ingestion producer does not own this spool"))
          h3 in
      let same = ok_same _ s h4 in
      (
        ap (λ (y : Intake). y.rows) (sym same),
        ap (λ (y : Intake). y.sequence) (sym same),
        ap (λ (y : Intake). y.producer) (sym same) ∙ owner_same producer owner (ground arith),
      )

  restarted-Grows :
      (producer epoch : String) (capacity max_payload headroom : ℕ) (s : Intake)
      (out : Result Intake)
      → open_intake producer epoch capacity max_payload headroom
          (record { owner = some s.producer; rows = s.rows; sequence = s.sequence })
        ≡ out
      → Grows s (restarted s out)
  unfolding restarted
  restarted-Grows producer epoch capacity max_payload headroom s (err e) h = Grows-refl s
  restarted-Grows producer epoch capacity max_payload headroom s (ok s') h =
      let (rows, sequence, same) =
        open_intake-same producer epoch capacity max_payload headroom s.producer s.rows s.sequence
          s' h in
      Same-Grows s s' rows sequence same

  closed-Grows :
      (s : Intake) (over : Bool)
      → Grows s (if over then s else record s { closing = true; closed = true })
  closed-Grows s true = Grows-refl s
  closed-Grows s false = Same-Grows s _ refl refl refl

  run_call-Grows : (w : World) (c : Call) (s : Intake) → Grows s (run_call sha256 w c s)
  unfolding run_call close
  run_call-Grows w (call_accept e) s = accept-Grows w e s
  run_call-Grows w (call_records_after offset limit) s = Grows-refl s
  run_call-Grows w call_close s = closed-Grows s s.closed
  run_call-Grows w (call_restart producer epoch capacity max_payload headroom) s =
      restarted-Grows producer epoch capacity max_payload headroom s _ refl

  -- Whatever the calls and restarts, each restart with settings of its own, and with the disk, the
  -- queue and SQLite failing at will: the producer stays, the rows of the spool stay as they are and
  -- more come after them; and if the offsets rose up to the last one, the rows were the producer's
  -- and each decoded under a limit of its payload's length, they still do.
  pub run_calls-Grows : (cs : List (World × Call)) (s : Intake) → Grows s (run_calls sha256 cs s)
  unfolding run_calls
  run_calls-Grows [] s = Grows-refl s
  run_calls-Grows ((w, c) ∷ cs) s =
      Grows-trans (run_call-Grows w c s) (run_calls-Grows cs (run_call sha256 w c s))
