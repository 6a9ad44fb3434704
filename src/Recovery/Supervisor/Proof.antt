-- ===== src/Recovery/Supervisor/Proof.antt =====
-- src/scryntic/recovery/supervisor.py: what the starts rest on that a repair round proves.
use scryntic.Prelude.{
  ℕ, ◌≡◌, ◌≢◌, String, Bool, true, false, Option, some, List, [], ◌∷◌, All, Any, All-imp, Result,
  ok, err, Error, refl, ap, subst, ◌⊎◌, inl, inr, if◌then◌else◌, ok_same, ingestion_error,
}
use scryntic.Prelude.Action.{◌>>=◌, lift, after}
use scryntic.Prelude.Int.{ℤ, pos}
use scryntic.Domain.Raw.{RawRecord}
use scryntic.Recovery.Coverage.Contracts.{CandleEvidence, matches}
use scryntic.Recovery.Coverage.Ledger.{Codec}
use scryntic.Recovery.Coverage.Repair.{exhaust}
use scryntic.Recovery.Supervisor.{
  Setup, Supervisor, SupervisorAction, parsed_candle, known_candle, on_ledger,
}
use scryntic.Recovery.Supervisor.Repair.{
  Turn, Collected, RepairAction, duplicate, conflict, outside, admitted, malformed, repair_action,
  checked_action, collect, collect_known, refused_row, repaired_as, accept_row, repair_row,
  repair_rows, run_events,
}
use scryntic.Recovery.Supervisor.Evidence.{
  Proves, looked_at, onward, parsed_candle-is_final, action-duplicate, action-admitted,
  checked_action-matches, collect_known-All, collect-All,
}

-- a call that raises after another one returns nothing
raises :
    {A B : Type 0} (e : Error) (b : B) (x : Result A × Supervisor)
    → (after {B = B} x (λ u. lift (err e))).0 ≢ ok b
unfolding after
raises e b (ok a, s) h = cc
raises e b (err x, s) h = cc

after-returns :
    {A B : Type 0} (x : Result A × Supervisor) (f : A → SupervisorAction B) (b : B)
    → (after x f).0 ≡ ok b
    → (a : A) × (x.0 ≡ ok a) × ((f a x.1).0 ≡ ok b)
unfolding after
after-returns (ok a, s) f b h = (a, refl, h)
after-returns (err e, s) f b h = cc

onward-ok :
    (x : Result Collected × Supervisor) (c : Collected)
    (rest : Collected → Supervisor → List (Supervisor × Turn))
    → x.0 ≡ ok c
    → onward x rest ≡ rest c x.1
unfolding onward
onward-ok (ok c', s) c rest h = ap (λ z. rest z s) (ok_same c' c h)
onward-ok (err e, s) c rest h = cc

module _ (codec : Codec) (sha256 : List ℕ → String) (setup : Setup) (P : ℤ → Type 0) where
  refused_row-raises :
      (index : ℕ) (reason : String) (s : Supervisor) (c : Collected)
      → (refused_row codec sha256 setup index reason s).0 ≢ ok c
  unfolding refused_row
  refused_row-raises index reason s c =
      raises (ingestion_error "Conflicting finalized or malformed candle recovery") c
        (on_ledger (exhaust codec index reason) s)

  repaired_as-All :
      (index : ℕ) (a : RepairAction) (found : Option CandleEvidence) (c : Collected)
      (raw : RawRecord) (s : Supervisor) (c' : Collected)
      → (repaired_as codec sha256 setup index a found c raw s).0 ≡ ok c'
      → a ≢ duplicate
      → a ≢ outside
      → All P c.proven
      → (a ≡ admitted
          → (evidence : CandleEvidence) → found ≡ some evidence
          → evidence.finalized ≡ true
          → P evidence.start_ns)
      → All P c'.proven
  unfolding repaired_as
  repaired_as-All index conflict found c raw s c' h d o p k =
      absurd (refused_row-raises index "repair-conflict" s c' h)
  repaired_as-All index malformed found c raw s c' h d o p k =
      absurd (refused_row-raises index "repair-malformed" s c' h)
  repaired_as-All index admitted found c raw s c' h d o p k =
      let c1 = record c { raw_offset = pos raw.identity.offset } in
      subst (λ (x : Collected). All P x.proven) (ok_same (collect found c1) c' h)
        (collect-All P found c1 p (k refl))
  repaired_as-All index duplicate found c raw s c' h d o p k = absurd (d refl)
  repaired_as-All index outside found c raw s c' h d o p k = absurd (o refl)

  found-Proves :
      (start end : ℤ) (t : Turn) (s : Supervisor) (a : RepairAction) (evidence : CandleEvidence)
      → checked_action setup start end s t.envelope ≡ a
      → a ≢ malformed
      → parsed_candle setup t.envelope ≡ some evidence
      → (matches s.ledger.stream t.envelope ≡ true)
        × (repair_action start end (some evidence) (known_candle s.ledger (some evidence)) ≡ a)
  found-Proves start end t s a evidence h k e =
      let (its, action) = checked_action-matches setup start end s t.envelope a h k in
      (its, subst (λ f. repair_action start end f (known_candle s.ledger f) ≡ a) e action)

  repair_row-All :
      (index : ℕ) (start end : ℤ) (t : Turn) (c : Collected) (s : Supervisor) (c' : Collected)
      (a : RepairAction)
      → checked_action setup start end s t.envelope ≡ a
      → (repair_row codec sha256 setup index a t c s).0 ≡ ok c'
      → All P c.proven
      → ((x : ℤ) → Proves setup start end x (s, t) → P x)
      → All P c'.proven
  unfolding repair_row
  repair_row-All index start end t c s c' duplicate act h p k =
      subst (λ (x : Collected). All P x.proven)
        (ok_same (collect_known (parsed_candle setup t.envelope) c) c' h)
        (collect_known-All P (parsed_candle setup t.envelope) c p λ evidence e.
          (let (its, action) = found-Proves start end t s duplicate evidence act (λ z. cc) e in
            k evidence.start_ns (record {
              evidence = evidence;
              its_candle = e;
              its_start = refl;
              its_stream = its;
              its_ground = inr (action-duplicate start end s.ledger evidence action);
            })))
  repair_row-All index start end t c s c' outside act h p k =
      subst (λ (x : Collected). All P x.proven) (ok_same c c' h) p
  repair_row-All index start end t c s c' conflict act h p k =
      let (raw, told, rest) = after-returns (accept_row codec sha256 setup t s) _ c' h in
      repaired_as-All index conflict _ c raw _ c' rest (λ z. cc) (λ z. cc) p (λ z. absurd (cc))
  repair_row-All index start end t c s c' malformed act h p k =
      let (raw, told, rest) = after-returns (accept_row codec sha256 setup t s) _ c' h in
      repaired_as-All index malformed _ c raw _ c' rest (λ z. cc) (λ z. cc) p (λ z. absurd (cc))
  repair_row-All index start end t c s c' admitted act h p k =
      let (raw, told, rest) = after-returns (accept_row codec sha256 setup t s) _ c' h in
      repaired_as-All index admitted (parsed_candle setup t.envelope) c raw _ c' rest (λ z. cc)
        (λ z. cc) p
        λ z evidence e final.
          (let (its, action) = found-Proves start end t s admitted evidence act (λ y. cc) e in
            k evidence.start_ns (record {
              evidence = evidence;
              its_candle = e;
              its_start = refl;
              its_stream = its;
              its_ground = inl (
                parsed_candle-is_final setup t.envelope evidence e final,
                (action-admitted start end evidence (known_candle s.ledger (some evidence))
                    action).0,
                (action-admitted start end evidence (known_candle s.ledger (some evidence))
                    action).1,
              );
            }))

  rows_ended :
      (test : Bool) (x y : Result Collected × Supervisor) (c' : Collected)
      → (if test then x else y).0 ≡ ok c'
      → (x.0 ≡ ok c') ⊎ (y.0 ≡ ok c')
  rows_ended true x y c' h = inl h
  rows_ended false x y c' h = inr h

  repair_rows-All :
      (index : ℕ) (start end : ℤ) (ts : List Turn) (c : Collected) (s : Supervisor) (c' : Collected)
      → (repair_rows codec sha256 setup index start end ts c s).0 ≡ ok c'
      → All P c.proven
      → All
          (λ row. (x : ℤ) → Proves setup start end x row → P x)
          (looked_at codec sha256 setup index start end ts c s)
      → All P c'.proven
  unfolding repair_rows looked_at
  repair_rows-All index start end [] c s c' h p k =
      subst (λ (x : Collected). All P x.proven) (ok_same c c' h) p
  repair_rows-All index start end (t ∷ ts) c s c' h p k =
      let s1 = run_events codec sha256 setup t.at_lock s in
      let act = checked_action setup start end s1 t.envelope in
      let body = repair_row codec sha256 setup index act t c in
      let rest = repair_rows codec sha256 setup index start end ts in
      elim (rows_ended s.closed (ok c, s) ((body >>= rest) s1) c' h) [
        | inl told ↦ subst (λ (x : Collected). All P x.proven) (ok_same c c' told) p
        | inr told ↦
            (let (c1, did, others) = after-returns (body s1) rest c' told in
              let first = repair_row-All index start end t c s1 c1 act refl did p k.0 in
              repair_rows-All index start end ts c1 (body s1).1 c' others first (
                subst (All (λ row. (x : ℤ) → Proves setup start end x row → P x))
                  (onward-ok (body s1) c1 (looked_at codec sha256 setup index start end ts) did)
                  k.1))
      ]

each-Any :
    (Q : ℤ → Supervisor × Turn → Type 0) (rows : List (Supervisor × Turn))
    → All (λ row. (x : ℤ) → Q x row → Any (Q x) rows) rows
each-Any Q [] = tt
each-Any Q (row ∷ rows) = (λ x q. inl q, All-imp (λ u f x q. inr (f x q)) rows (each-Any Q rows))

-- Where the rows of a page are gone through without an exception, each start that they prove is that
-- of a candle of the page, of the ledger's stream, and this candle either is final by the clock's
-- policy at its receipt and lies in the span, or has the very fingerprint that the ledger had for a
-- final candle of this start when the row was looked at; whatever other tasks do in the waits.
pub repair_rows-Proves :
    (codec : Codec) (sha256 : List ℕ → String) (setup : Setup) (index : ℕ) (start end offset : ℤ)
    (ts : List Turn) (s : Supervisor) (c : Collected)
    → (let none_yet : Collected = record { proven = []; final_candles = []; raw_offset = offset } in
        (repair_rows codec sha256 setup index start end ts none_yet s).0 ≡ ok c
        → All
            (λ x.
              Any
                (Proves setup start end x)
                (looked_at codec sha256 setup index start end ts none_yet s))
            c.proven)
repair_rows-Proves codec sha256 setup index start end offset ts s c h =
    let none_yet : Collected = record { proven = []; final_candles = []; raw_offset = offset } in
    let rows = looked_at codec sha256 setup index start end ts none_yet s in
    repair_rows-All codec sha256 setup (λ x. Any (Proves setup start end x) rows) index start end ts
      none_yet s c h tt (each-Any (Proves setup start end) rows)
