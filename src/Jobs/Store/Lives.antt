-- ===== src/Jobs/Store/Lives.antt =====
-- src/scryntic/jobs/store.py: the table after any calls and restarts, against the life of each job.
use scryntic.Prelude.{
  Result-cases, ok_same, ℕ, zero, suc, ◌≡◌, ◌∙◌, String, true, false, not, ◌||◌, Option, none, some,
  List, [], ◌∷◌, arith, if◌then◌else◌, Result, ok, refl, ◌⊎◌, inl, inr, Bool-cases, ap, sym, subst,
  >>=-returns,
}
use scryntic.Prelude.Text.{str_eq, str_eq_iff}
use scryntic.Jobs.Records.{Row, queued}
use scryntic.Jobs.Store.{
  World, Store, Body, transaction, closing, lookup, replace, insert_row, on_row, each, page,
}
use scryntic.Jobs.Store.Change.{started_row, finished_row}
use scryntic.Jobs.Store.Steps.{Move, give_up, break_off, start, complete, Moves, here, next}

-- a job as it is submitted
pub record IsFresh (r : Row) : Type 0 where
  pub is_new : r.state ≡ queued
  pub unattempted : r.attempt ≡ 0
  pub without_token : r.token ≡ none
  pub without_result : r.result_sha256 ≡ none

-- One step of what the table has for an id: a job is submitted, or it moves. None is deleted.
pub data Step : Option Row → Option Row → Type 0 where
  submitted : {r : Row} → IsFresh r → Step none (some r)
  moved : {r r' : Row} → Move r r' → Step (some r) (some r')

pub data Life (o : Option Row) : Option Row → Type 0 where
  start_of : Life o o
  then_step : {p q : Option Row} → Life o p → Step p q → Life o q

pub Life-trans : {o p q : Option Row} → Life o p → Life p q → Life o q
Life-trans a start_of = a
Life-trans a (then_step b s) = then_step (Life-trans a b) s

Life-Moves : {r s : Row} → Moves r s → Life (some r) (some s)
Life-Moves here = start_of
Life-Moves (next m k) = then_step (Life-Moves m) (moved k)

-- what the table has for each id has lived on
abbrev pub Evolves : List Row → List Row → Type 0
Evolves rows rows' = (id : String) → Life (lookup id rows) (lookup id rows')

Move-id : {r s : Row} → Move r s → s.request_id ≡ r.request_id
unfolding started_row finished_row
Move-id (give_up state reason updated a b c d e) = ap (λ x. x.request_id) e
Move-id (break_off reason updated a d e) = ap (λ x. x.request_id) e
Move-id (start token now a b d e) = ap (λ x. x.request_id) e
Move-id (complete state result reason updated a ends b d e) = ap (λ x. x.request_id) e

pub Moves-id : {r s : Row} → Moves r s → s.request_id ≡ r.request_id
Moves-id here = refl
Moves-id (next m k) = Move-id k ∙ Moves-id m

pub lookup-id :
    (id : String) (rows : List Row) (r : Row) → lookup id rows ≡ some r → r.request_id ≡ id
unfolding lookup
lookup-id id [] r h = cc
lookup-id id (x ∷ rows) r h = ground (arith, str_eq_iff x.request_id id, lookup-id id rows r)

pub lookup-replace :
    (id j : String) (new : Row) (rows : List Row) (r : Row)
    → lookup id rows ≡ some r
    → new.request_id ≡ id
    → lookup j (replace id new rows) ≡ (if str_eq id j then some new else lookup j rows)
unfolding lookup replace
lookup-replace id j new [] r h e = cc
lookup-replace id j new (x ∷ rows) r h e = ground (
  arith,
  str_eq_iff x.request_id id,
  str_eq_iff id j,
  str_eq_iff x.request_id j,
  lookup-replace id j new rows r,
)

lookup-insert_row :
    (j : String) (new : Row) (rows : List Row)
    → lookup new.request_id rows ≡ none
    → lookup j (insert_row new rows) ≡ (if str_eq new.request_id j then some new else lookup j rows)
unfolding lookup insert_row
lookup-insert_row j new [] h = refl
lookup-insert_row j new (x ∷ rows) h = ground (
  arith,
  str_eq_iff x.request_id new.request_id,
  str_eq_iff new.request_id j,
  str_eq_iff x.request_id j,
  lookup-insert_row j new rows,
)

pub Evolves-replace :
    (id : String) (new : Row) (rows : List Row) (r : Row)
    → lookup id rows ≡ some r
    → Moves r new
    → Evolves rows (replace id new rows)
Evolves-replace id new rows r h m j =
    let e : new.request_id ≡ id = Moves-id m ∙ lookup-id id rows r h in
    let found = lookup-replace id j new rows r h e in
    elim (Bool-cases (str_eq id j)) [
      | inl same ↦
          let at : lookup j rows ≡ some r =
            subst (λ k. lookup k rows ≡ some r) ((str_eq_iff id j).0 same) h in
          let now_at : lookup j (replace id new rows) ≡ some new = rw same at found in
          subst (λ o. Life o (lookup j (replace id new rows))) (sym at)
            (subst (Life (some r)) (sym now_at) (Life-Moves m))
      | inr other ↦
          let kept : lookup j (replace id new rows) ≡ lookup j rows = rw other at found in
          subst (Life (lookup j rows)) (sym kept) start_of
    ]

pub Evolves-insert_row :
    (new : Row) (rows : List Row)
    → lookup new.request_id rows ≡ none
    → IsFresh new
    → Evolves rows (insert_row new rows)
Evolves-insert_row new rows h f j =
    let found = lookup-insert_row j new rows h in
    elim (Bool-cases (str_eq new.request_id j)) [
      | inl same ↦
          let at : lookup j rows ≡ none =
            subst (λ k. lookup k rows ≡ none) ((str_eq_iff new.request_id j).0 same) h in
          let now_at : lookup j (insert_row new rows) ≡ some new = rw same at found in
          subst (λ o. Life o (lookup j (insert_row new rows))) (sym at)
            (subst (Life none) (sym now_at) (then_step start_of (submitted f)))
      | inr other ↦
          let kept : lookup j (insert_row new rows) ≡ lookup j rows = rw other at found in
          subst (Life (lookup j rows)) (sym kept) start_of
    ]

Evolves-cons :
    (r s : Row) (rows rows' : List Row)
    → Moves r s
    → Evolves rows rows'
    → Evolves (r ∷ rows) (s ∷ rows')
unfolding lookup
Evolves-cons r s rows rows' m h j = elim (Bool-cases (str_eq r.request_id j)) [
  | inl same ↦
      (let also : str_eq s.request_id j ≡ true =
          subst (λ k. str_eq k j ≡ true) (sym (Moves-id m)) same in
        rw (same, also) (Life-Moves m))
  | inr other ↦
      (let also : str_eq s.request_id j ≡ false =
          subst (λ k. str_eq k j ≡ false) (sym (Moves-id m)) other in
        rw (other, also) (h j))
]

-- what a statement on a row leaves, where it returns
abbrev pub RowMoves : {A : Type 0} → (Row → Result (A × Row)) → Type 0
RowMoves {A} body = (r : Row) (out : A × Row) → body r ≡ ok out → Moves r out.1

abbrev pub TableEvolves : {A : Type 0} → Body A → Type 0
TableEvolves {A} body =
    (rows : List Row) (out : A × List Row) → body rows ≡ ok out → Evolves rows out.1

pub on_row-Evolves :
    {A : Type 0} (id : String) (body : Row → Result (A × Row)) (o : Option Row) (rows : List Row)
    (out : A × List Row)
    → RowMoves body
    → lookup id rows ≡ o
    → on_row id body o rows ≡ ok out
    → Evolves rows out.1
unfolding on_row
on_row-Evolves id body none rows out m e h = cc
on_row-Evolves id body (some r) rows out m e h =
    let (done, rest, did) = >>=-returns (body r) h in
    let same : (done.0, replace id done.1 rows) ≡ out = ok_same _ out rest in
    subst (λ x. Evolves rows x.1) same (Evolves-replace id done.1 rows r e (m r done did))

pub each-Evolves :
    {A : Type 0} (body : Row → Result (A × Row)) → RowMoves body → TableEvolves (each body)
unfolding each
each-Evolves body m [] out h = subst (λ x. Evolves [] x.1) (ok_same ([], []) out h) (λ j. start_of)
each-Evolves body m (r ∷ rows) out h =
    let (first, after, did) = >>=-returns (body r) h in
    let (rest, made, others) = >>=-returns (each body rows) after in
    subst (λ x. Evolves (r ∷ rows) x.1) (ok_same _ out made)
      (Evolves-cons r first.1 rows rest.1 (m r first did) (each-Evolves body m rows rest others))

pub page-Evolves :
    {A : Type 0} (body : Row → Result (A × Row)) (limit offset : ℕ)
    → RowMoves body
    → TableEvolves (page limit offset body)
unfolding page
page-Evolves body limit offset m [] out h =
    subst (λ x. Evolves [] x.1) (ok_same ([], []) out h) (λ j. start_of)
page-Evolves body zero zero m (r ∷ rows) out h =
    subst (λ x. Evolves (r ∷ rows) x.1) (ok_same ([], r ∷ rows) out h) (λ j. start_of)
page-Evolves body (suc limit) zero m (r ∷ rows) out h =
    let (first, after, did) = >>=-returns (body r) h in
    let (rest, made, others) = >>=-returns (page limit zero body rows) after in
    subst (λ x. Evolves (r ∷ rows) x.1) (ok_same _ out made)
      (Evolves-cons r first.1 rows rest.1 (m r first did)
        (page-Evolves body limit zero m rows rest others))
page-Evolves body limit (suc offset) m (r ∷ rows) out h =
    let (rest, made, others) = >>=-returns (page limit offset body rows) h in
    subst (λ x. Evolves (r ∷ rows) x.1) (ok_same _ out made)
      (Evolves-cons r r rows rest.1 here (page-Evolves body limit offset m rows rest others))

-- The rows after a transaction are those before it, or those that its statements left.
pub transaction-rows :
    {A : Type 0} (w : World) (body : Body A) (s : Store)
    → ((transaction w body s).1.rows ≡ s.rows)
      ⊎ ((out : A × List Row) × (body s.rows ≡ ok out) × ((transaction w body s).1.rows ≡ out.1))
unfolding transaction closing
transaction-rows w body s = elim (Result-cases (body s.rows)) [
  | inl (out, e) ↦ elim (Bool-cases ((s.closed || s.failed) || (not w.begins || not w.commits))) [
    | inl stays ↦ inl (ground arith)
    | inr goes ↦ inr (out, e, ground arith)
  ]
  | inr (x, e) ↦ inl (ground arith)
]

pub transaction-Evolves :
    {A : Type 0} (w : World) (body : Body A) (s : Store)
    → TableEvolves body
    → Evolves s.rows (transaction w body s).1.rows
transaction-Evolves w body s k = elim (transaction-rows w body s) [
  | inl same ↦ subst (Evolves s.rows) (sym same) (λ j. start_of)
  | inr (out, did, same) ↦ subst (Evolves s.rows) (sym same) (k s.rows out did)
]

-- A transaction that returns has committed what its statements left.
pub transaction-ok :
    {A : Type 0} (w : World) (body : Body A) (s : Store) (a : A)
    → (transaction w body s).0 ≡ ok a
    → (rows : List Row) × (body s.rows ≡ ok (a, rows)) × ((transaction w body s).1.rows ≡ rows)
unfolding transaction closing
transaction-ok w body s a h = elim (Result-cases (body s.rows)) [
  | inr (x, e) ↦ absurd (ground arith)
  | inl (out, e) ↦ (out.1, ground arith, ground arith)
]
