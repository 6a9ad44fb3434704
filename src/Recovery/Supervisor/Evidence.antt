-- ===== src/Recovery/Supervisor/Evidence.antt =====
-- src/scryntic/recovery/supervisor.py: what a start rests on that a repair round proves.
use scryntic.Prelude.{
  ℕ, ◌≡◌, ◌≢◌, String, Bool, true, false, Result, ok, err, Option, none, some, List, [], ◌∷◌, arith,
  All, Any, All-append, refl, sym, ap, subst, ◌⊎◌, inl, inr, Bool-cases, Option-cases,
  if◌then◌else◌,
}
use scryntic.Prelude.Int.{ℤ, pos, ◌+ℤ◌, ◌≤ℤ◌, ◌<ℤ◌, eq_ℤ, eq_of_parts}
use scryntic.Prelude.Text.{str_eq_iff}
use scryntic.Clock.Policy.{is_final}
use scryntic.Domain.Raw.{RawEnvelope}
use scryntic.Domain.Time.{ClockSample}
use scryntic.Recovery.Coverage.Contracts.{CandleEvidence, matches}
use scryntic.Recovery.Coverage.Ledger.{Codec, Ledger}
use scryntic.Recovery.Coverage.Observe.{dict_get, dict_set, dict_update}
use scryntic.Recovery.Supervisor.{
  Setup, Supervisor, parsed_candle, final_candle, known_candle, same_sha,
}
use scryntic.Recovery.Supervisor.Repair.{
  Turn, Collected, RepairAction, duplicate, admitted, malformed, repair_action, checked_action,
  collect, collect_known, add_start, add_sha, run_events, repair_row,
}

-- The turn's envelope is of the stream of the ledger as it was when the row was looked at, and its
-- candle begins at the start: it is final by the clock's policy and in the range, or its
-- fingerprint is the one that the ledger has for a final candle of the same start.
pub record Proves (setup : Setup) (start end x : ℤ) (row : Supervisor × Turn) : Type 0 where
  pub evidence : CandleEvidence
  pub its_candle : parsed_candle setup row.1.envelope ≡ some evidence
  pub its_start : evidence.start_ns ≡ x
  pub its_stream : matches row.0.ledger.stream row.1.envelope ≡ true
  pub its_ground :
      ((is_final row.1.envelope.receipt
            (evidence.start_ns +ℤ pos evidence.interval_ns)
            setup.clock_limits
          ≡ true)
        × (start ≤ℤ evidence.start_ns)
        × (evidence.start_ns <ℤ end))
      ⊎ ((sha : String) × (evidence.market_sha256 ≡ some sha)
          × Any (λ item. item ≡ (x, sha)) row.0.ledger.snapshot.final_candles)

-- what is looked at after a row, which is nothing where it raised
unfoldable pub onward :
    Result Collected × Supervisor
    → (Collected → Supervisor → List (Supervisor × Turn))
    → List (Supervisor × Turn)
onward (ok c, s) rest = rest c s
onward (err e, s) rest = []

-- the rows that `repair_rows` goes through, each with the state in which it looks at the row
module _ (codec : Codec) (sha256 : List ℕ → String) (setup : Setup) where
  unfoldable pub looked_at :
      ℕ → ℤ → ℤ → List Turn → Collected → Supervisor → List (Supervisor × Turn)
  looked_at index start end [] c s = []
  looked_at index start end (t ∷ ts) c s =
      let s1 = run_events codec sha256 setup t.at_lock s in
      let body =
        repair_row codec sha256 setup index (checked_action setup start end s1 t.envelope) t c s1 in
      (s1, t) ∷ onward body (looked_at index start end ts)

final_candle-is_final :
    (setup : Setup) (receipt : ClockSample) (found : Option CandleEvidence)
    (evidence : CandleEvidence)
    → final_candle setup receipt found ≡ some evidence
    → evidence.finalized ≡ true
    → is_final receipt (evidence.start_ns +ℤ pos evidence.interval_ns) setup.clock_limits ≡ true
unfolding final_candle
final_candle-is_final setup receipt none evidence h f = cc
final_candle-is_final setup receipt (some e) evidence h f = ground arith

pub parsed_candle-is_final :
    (setup : Setup) (envelope : RawEnvelope) (evidence : CandleEvidence)
    → parsed_candle setup envelope ≡ some evidence
    → evidence.finalized ≡ true
    → is_final envelope.receipt (evidence.start_ns +ℤ pos evidence.interval_ns) setup.clock_limits
      ≡ true
unfolding parsed_candle
parsed_candle-is_final setup envelope evidence h f = elim (Option-cases setup.candle_parser) [
  | inl without ↦ (let k : none ≡ some evidence = rw (without, parsed_candle) at h in absurd (cc))
  | inr (parser, given) ↦
      final_candle-is_final setup envelope.receipt (parser envelope) evidence
        (rw (given, parsed_candle) at h) f
]

-- what a lookup finds in a dictionary stands in it
dict_get-Any :
    (x : ℤ) (sha : String) (d : List (ℤ × String))
    → dict_get x d ≡ some sha
    → Any (λ item. item ≡ (x, sha)) d
unfolding dict_get
dict_get-Any x sha [] h = cc
dict_get-Any x sha ((k, v) ∷ d) h = elim (Bool-cases (eq_ℤ k x)) [
  | inl same ↦
      (let key : k ≡ x = eq_of_parts k x (ground arith) in
        let value : v ≡ sha = ground arith in inl (cc))
  | inr other ↦ inr (dict_get-Any x sha d (rw other at h))
]

dict_set-Any :
    (item : ℤ × String) (k : ℤ) (v : String) (d : List (ℤ × String))
    → Any (λ i. i ≡ item) (dict_set k v d)
    → ((k, v) ≡ item) ⊎ Any (λ i. i ≡ item) d
unfolding dict_set
dict_set-Any item k v [] (inl h) = inl h
dict_set-Any item k v [] (inr h) = elim h [ ]
dict_set-Any item k v ((a, b) ∷ d) h = elim (Bool-cases (eq_ℤ a k)) [
  | inl same ↦
      (let key : a ≡ k = eq_of_parts a k (ground arith) in
        let found : Any (λ i. i ≡ item) ((a, v) ∷ d) = rw same at h in
        elim found [ inl here ↦ inl (cc) | inr there ↦ inr (inr there) ])
  | inr other ↦
      (let found : Any (λ i. i ≡ item) ((a, b) ∷ dict_set k v d) = rw other at h in
        elim found [
          | inl here ↦ inr (inl here)
          | inr there ↦ elim (dict_set-Any item k v d there) [
            | inl set ↦ inl set
            | inr kept ↦ inr (inr kept)
          ]
        ])
]

dict_update-Any :
    (item : ℤ × String) (d items : List (ℤ × String))
    → Any (λ i. i ≡ item) (dict_update d items)
    → Any (λ i. i ≡ item) d ⊎ Any (λ i. i ≡ item) items
unfolding dict_update
dict_update-Any item d [] h = inl h
dict_update-Any item d ((k, v) ∷ items) h = elim (dict_update-Any item (dict_set k v d) items h) [
  | inr later ↦ inr (inr later)
  | inl set ↦ elim (dict_set-Any item k v d set) [ inl new ↦ inr (inl new) | inr old ↦ inl old ]
]

known_candle-Any :
    (l : Ledger) (evidence : CandleEvidence) (sha : String)
    → known_candle l (some evidence) ≡ some sha
    → Any (λ item. item ≡ (evidence.start_ns, sha)) l.snapshot.final_candles
unfolding known_candle
known_candle-Any l evidence sha h =
    let found = dict_get-Any evidence.start_ns sha (dict_update [] l.snapshot.final_candles) h in
    elim (dict_update-Any (evidence.start_ns, sha) [] l.snapshot.final_candles found) [
      | inl none_there ↦ elim none_there [ ]
      | inr there ↦ there
    ]

same_sha-some :
    (known : String) (sha : Option String) → same_sha (some known) sha ≡ true → sha ≡ some known
unfolding same_sha
same_sha-some known none h = cc
same_sha-some known (some s) h = ap some (sym ((str_eq_iff known s).0 h))

pub action-duplicate :
    (start end : ℤ) (l : Ledger) (evidence : CandleEvidence)
    → repair_action start end (some evidence) (known_candle l (some evidence)) ≡ duplicate
    → (s : String) × (evidence.market_sha256 ≡ some s)
      × Any (λ item. item ≡ (evidence.start_ns, s)) l.snapshot.final_candles
unfolding repair_action
action-duplicate start end l evidence h = elim (Option-cases (known_candle l (some evidence))) [
  | inl missing ↦ absurd (ground arith)
  | inr (known, e) ↦ (
    known,
    same_sha-some known evidence.market_sha256 (ground arith),
    known_candle-Any l evidence known e,
  )
]

pub action-admitted :
    (start end : ℤ) (evidence : CandleEvidence) (known : Option String)
    → repair_action start end (some evidence) known ≡ admitted
    → (start ≤ℤ evidence.start_ns) × (evidence.start_ns <ℤ end)
unfolding repair_action
action-admitted start end evidence none h = (ground arith, ground arith)
action-admitted start end evidence (some known) h = absurd (ground arith)

pub checked_action-matches :
    (setup : Setup) (start end : ℤ) (s : Supervisor) (envelope : RawEnvelope) (a : RepairAction)
    → checked_action setup start end s envelope ≡ a
    → a ≢ malformed
    → (matches s.ledger.stream envelope ≡ true)
      × (repair_action start end
            (parsed_candle setup envelope)
            (known_candle s.ledger (parsed_candle setup envelope))
          ≡ a)
unfolding checked_action
checked_action-matches setup start end s envelope a h k = ground arith

pub collect_known-All :
    (P : ℤ → Type 0) (found : Option CandleEvidence) (c : Collected)
    → All P c.proven
    → ((evidence : CandleEvidence) → found ≡ some evidence → P evidence.start_ns)
    → All P (collect_known found c).proven
unfolding collect_known
collect_known-All P none c h k = h
collect_known-All P (some evidence) c h k =
    All-append P c.proven (evidence.start_ns ∷ []) h (k evidence refl, tt)

add_sha-proven :
    (start : ℤ) (sha : Option String) (c : Collected) → (add_sha start sha c).proven ≡ c.proven
add_sha-proven start none c = refl
add_sha-proven start (some sha) c = refl

if-same : {A : Type 0} (b c : Bool) (x y : A) → b ≡ c → (if b then x else y) ≡ (if c then x else y)
if-same b c x y h = ap (λ t. if t then x else y) h

pub collect-All :
    (P : ℤ → Type 0) (found : Option CandleEvidence) (c : Collected)
    → All P c.proven
    → ((evidence : CandleEvidence)
        → found ≡ some evidence
        → evidence.finalized ≡ true
        → P evidence.start_ns)
    → All P (collect found c).proven
unfolding collect
collect-All P none c h k = h
collect-All P (some evidence) c h k = elim (Bool-cases evidence.finalized) [
  | inl final ↦
      (let more = All-append P c.proven (evidence.start_ns ∷ []) h (k evidence refl final, tt) in
        subst (λ (x : Collected). All P x.proven) (sym (if-same evidence.finalized true _ c final))
          (subst (All P)
            (sym (add_sha-proven evidence.start_ns evidence.market_sha256 (add_start evidence c)))
            more))
  | inr open_candle ↦
      subst (λ (x : Collected). All P x.proven)
        (sym (if-same evidence.finalized false _ c open_candle)) h
]
