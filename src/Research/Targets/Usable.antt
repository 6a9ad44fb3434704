-- ===== src/Research/Targets/Usable.antt =====
-- src/scryntic/research/targets.py: what the loop over the hours collects as of a cutoff.
use scryntic.Prelude.{
  ℕ, ◌≤◌, ◌≡◌, Bool, true, false, Option, none, some, List, [], ◌∷◌, arith, All, keep, last?,
  Result, ok, err, Error, refl, subst, sym, leb, ◌⊎◌, inl, inr, Bool-cases, Option-cases, String,
}
use scryntic.Prelude.Int.{ℤ, pos, ◌<ℤ◌}
use scryntic.Research.Targets.Series.{
  Plane, as_observed, historical_reconstruction, HourlyBar, HourlySeries, Versions, versions_at,
  is_known_by, Selection, chosen, excluded, qualify, select_version, select,
}
use scryntic.Research.Targets.Record.{
  Collected, all_chosen, stopped, collect, known_at, latest_known, with_bar,
}

-- The bar is final, its time and its price are good, and it was known by the cutoff.
pub record IsUsable (cutoff : ℕ) (bar : HourlyBar) : Type 0 where
  pub is_final : bar.final ≡ true
  pub has_quality : bar.quality_ok ≡ true
  pub is_positive : pos 0 <ℤ bar.close.coefficient
  pub known : ℕ
  pub recorded : bar.known_at_ns ≡ some known
  pub in_time : known ≤ cutoff

last-All :
    (P : HourlyBar → Type 0) (bars : List HourlyBar) (bar : HourlyBar)
    → All P bars
    → last? bars ≡ some bar
    → P bar
last-All P [] bar h e = cc
last-All P (x ∷ []) bar h e = subst P (ground arith) h.0
last-All P (x ∷ y ∷ bars) bar h e = last-All P (y ∷ bars) bar h.1 e

All-keep_self : (p : HourlyBar → Bool) (bars : List HourlyBar) → All (λ b. p b ≡ true) (keep p bars)
All-keep_self p [] = tt
All-keep_self p (x ∷ bars) = elim (Bool-cases (p x)) [
  | inl y ↦ rw y (y, All-keep_self p bars)
  | inr n ↦ rw n (All-keep_self p bars)
]

pub qualify-chosen :
    (o : Option HourlyBar) (bar : HourlyBar)
    → qualify o ≡ chosen bar
    → (o ≡ some bar)
      × (bar.final ≡ true)
      × (bar.quality_ok ≡ true)
      × (pos 0 <ℤ bar.close.coefficient)
unfolding qualify
qualify-chosen none bar h = cc
qualify-chosen (some b) bar h = (ground arith, ground arith, ground arith, ground arith)

is_known_by-known :
    (cutoff : ℕ) (o : Option ℕ)
    → (elim o [ none ↦ false | some known ↦ leb known cutoff ]) ≡ true
    → (known : ℕ) × (o ≡ some known) × (known ≤ cutoff)
is_known_by-known cutoff none h = cc
is_known_by-known cutoff (some k) h = (k, refl, ground arith)

select_version-IsUsable :
    (plane : Plane) (cutoff : ℕ) (versions : Option (List HourlyBar)) (bar : HourlyBar)
    → plane ≡ as_observed
    → select_version plane (some cutoff) versions ≡ ok (chosen bar)
    → IsUsable cutoff bar
unfolding select_version is_known_by
select_version-IsUsable historical_reconstruction cutoff versions bar o h = cc
select_version-IsUsable as_observed cutoff none bar o h = cc
select_version-IsUsable as_observed cutoff (some bars) bar o h =
    let (last, f, q, p) = qualify-chosen (last? (keep (is_known_by cutoff) bars)) bar (cc) in
    let (k, e, le) = is_known_by-known cutoff bar.known_at_ns (
      last-All (λ b. is_known_by cutoff b ≡ true) (keep (is_known_by cutoff) bars) bar
        (All-keep_self (is_known_by cutoff) bars) last) in
    record { is_final = f; has_quality = q; is_positive = p; known = k; recorded = e; in_time = le }

-- the versions of one start that are known by the cutoff
abbrev pub known_versions : ℕ → Option (List HourlyBar) → List HourlyBar
known_versions cutoff none = []
known_versions cutoff (some bars) = keep (is_known_by cutoff) bars

select_version-same :
    (plane : Plane) (cutoff : ℕ) (v w : Option (List HourlyBar)) (bar : HourlyBar)
    → plane ≡ as_observed
    → known_versions cutoff v ≡ known_versions cutoff w
    → select_version plane (some cutoff) v ≡ ok (chosen bar)
    → select_version plane (some cutoff) w ≡ ok (chosen bar)
unfolding select_version qualify
select_version-same historical_reconstruction cutoff v w bar o e h = cc
select_version-same as_observed cutoff none w bar o e h = cc
select_version-same as_observed cutoff (some a) none bar o e h = absurd (ground arith)
select_version-same as_observed cutoff (some a) (some b) bar o e h = rw e at h

Selection-cases :
    (x : Result Selection)
    → ((bar : HourlyBar) × (x ≡ ok (chosen bar)))
      ⊎ (((reason : String) × (x ≡ ok (excluded reason))) ⊎ ((e : Error) × (x ≡ err e)))
Selection-cases (ok (chosen bar)) = inl (bar, refl)
Selection-cases (ok (excluded reason)) = inr (inl (reason, refl))
Selection-cases (err e) = inr (inr (e, refl))

pub Collected-cases :
    (x : Result Collected)
    → ((bars : List HourlyBar) × (x ≡ ok (all_chosen bars)))
      ⊎ (((reason : String) × (x ≡ ok (stopped reason))) ⊎ ((e : Error) × (x ≡ err e)))
Collected-cases (ok (all_chosen bars)) = inl (bars, refl)
Collected-cases (ok (stopped reason)) = inr (inl (reason, refl))
Collected-cases (err e) = inr (inr (e, refl))

pub collect-cons :
    (s : HourlySeries) (as_of : Option ℕ) (start : ℤ) (starts : List ℤ) (bars : List HourlyBar)
    → collect s as_of (start ∷ starts) ≡ ok (all_chosen bars)
    → (bar : HourlyBar) × (others : List HourlyBar) × (select s start as_of ≡ ok (chosen bar))
      × (collect s as_of starts ≡ ok (all_chosen others))
      × (bars ≡ bar ∷ others)
unfolding collect with_bar
collect-cons s as_of start starts bars h = elim (Selection-cases (select s start as_of)) [
  | inr (inl (reason, e)) ↦ absurd (ground arith)
  | inr (inr (x, e)) ↦ absurd (ground arith)
  | inl (bar, e) ↦ elim (Collected-cases (collect s as_of starts)) [
    | inr (inl (reason, f)) ↦ absurd (ground arith)
    | inr (inr (x, f)) ↦ absurd (ground arith)
    | inl (others, f) ↦ (bar, others, e, f, ground arith)
  ]
]

-- the versions of each start that are known by the cutoff are the same
abbrev pub SameKnown : ℕ → Versions → Versions → List ℤ → Type 0
SameKnown cutoff v w = All (λ start.
    known_versions cutoff (versions_at start v) ≡ known_versions cutoff (versions_at start w))

pub collect-IsUsable :
    (s : HourlySeries) (cutoff : ℕ) (starts : List ℤ) (bars : List HourlyBar)
    → s.key.availability_plane ≡ as_observed
    → collect s (some cutoff) starts ≡ ok (all_chosen bars)
    → All (IsUsable cutoff) bars
unfolding select collect
collect-IsUsable s cutoff [] [] p h = tt
collect-IsUsable s cutoff [] (b ∷ bs) p h = cc
collect-IsUsable s cutoff (start ∷ starts) bars p h =
    let (bar, others, e, f, same) = collect-cons s (some cutoff) start starts bars h in
    subst (All (IsUsable cutoff)) (sym same) (
      select_version-IsUsable s.key.availability_plane cutoff (versions_at start s.versions) bar p
          e,
      collect-IsUsable s cutoff starts others p f,
    )

pub collect-same :
    (s : HourlySeries) (w : Versions) (cutoff : ℕ) (starts : List ℤ) (bars : List HourlyBar)
    → s.key.availability_plane ≡ as_observed
    → SameKnown cutoff s.versions w starts
    → collect s (some cutoff) starts ≡ ok (all_chosen bars)
    → collect (record s { versions = w }) (some cutoff) starts ≡ ok (all_chosen bars)
unfolding select collect with_bar
collect-same s w cutoff [] bars p same h = h
collect-same s w cutoff (start ∷ starts) bars p same h =
    let (bar, others, e, f, split) = collect-cons s (some cutoff) start starts bars h in
    let t = record s { versions = w } in
    let again : select t start (some cutoff) ≡ ok (chosen bar) =
      select_version-same s.key.availability_plane cutoff (versions_at start s.versions)
        (versions_at start w) bar p same.0 e in
    ground (arith, again, collect-same s w cutoff starts others p same.1 f, split)

latest_known-le :
    (cutoff : ℕ) (bars : List HourlyBar) (k : ℕ)
    → All (IsUsable cutoff) bars
    → latest_known bars ≡ some k
    → k ≤ cutoff
unfolding latest_known
latest_known-le cutoff [] k h e = cc
latest_known-le cutoff (bar ∷ bars) k h e = elim (Option-cases (latest_known bars)) [
  | inl no_more ↦ ground (arith, h.0.recorded, h.0.in_time)
  | inr (m, more) ↦
      ground (arith, h.0.recorded, h.0.in_time, latest_known-le cutoff bars m h.1 more)
]

pub known_at-le :
    (plane : Plane) (cutoff : ℕ) (bars : List HourlyBar) (o : Option ℕ)
    → plane ≡ as_observed
    → All (IsUsable cutoff) bars
    → known_at plane bars ≡ ok o
    → (k : ℕ) × (o ≡ some k) × (k ≤ cutoff)
unfolding known_at
known_at-le historical_reconstruction cutoff bars o p h e = cc
known_at-le as_observed cutoff bars o p h e = elim (Option-cases (latest_known bars)) [
  | inl nothing ↦ absurd (ground arith)
  | inr (k, found) ↦ (k, ground arith, latest_known-le cutoff bars k h found)
]
