-- ===== src/Research/Targets/Matured.antt =====
-- src/scryntic/research/targets.py: an outcome is scored after its endpoint, from what was known.
use scryntic.Prelude.{
  ℕ, zero, suc, ◌+◌, ◌*◌, ◌≤◌, ◌<◌, ◌≡◌, ◌∙◌, true, Option, none, some, List, [], ◌∷◌, arith, ok,
  inl, inr, String, All, Any, keep, last?, length, refl, sym, subst, ap, Option-cases, All-imp, ltb,
  Bool-cases, ◌⊎◌, if◌then◌else◌,
}
use scryntic.Prelude.Int.{pos, ◌+ℤ◌}
use scryntic.Research.Targets.Series.{
  Plane, as_observed, historical_reconstruction, HourlyBar, HourlySeries, Decimal, issue_delay_ns,
  hour_ns, versions_at, select, select_version, chosen, is_known_by,
}
use scryntic.Research.Targets.Record.{
  Kit, all_chosen, collect, known_at, OriginRecord, OutcomeRecord, check_cutoff, latest_known,
  later_known, starts_from,
}
use scryntic.Research.Targets.Origin.{matured, outcome, outcome_starts, endpoint_of}
use scryntic.Research.Targets.Usable.{
  IsUsable, Collected-cases, collect-IsUsable, collect-cons, known_at-le, known_versions,
  qualify-chosen,
}

-- One bar for each hour from `t` on, which is a version of this hour that was known by the cutoff.
abbrev pub Hourly : HourlySeries → ℕ → ℕ → List HourlyBar → Type 0
Hourly s cutoff t [] = Unit {0}
Hourly s cutoff t (bar ∷ bars) =
    Any (λ x. x ≡ bar) (known_versions cutoff (versions_at (pos t) s.versions))
    × Hourly s cutoff (t + hour_ns) bars

-- What the value of an outcome rests on: the bars of the hours from the origin's end to the
-- endpoint, the last one's close against that of the origin, and the time at which the last of
-- them was known.
pub record Rests (kit : Kit) (s : HourlySeries) (o : OriginRecord) (as_of known : ℕ) (v : Decimal)
    : Type 0 where
  pub bars : List HourlyBar
  pub hourly : Hourly s as_of o.origin_end_ns bars
  pub reach :
      o.origin_end_ns + o.horizon_seconds * 1_000_000_000 ≤ o.origin_end_ns + length bars * hour_ns
  pub no_further :
      o.origin_end_ns + length bars * hour_ns
      < o.origin_end_ns + o.horizon_seconds * 1_000_000_000 + hour_ns
  pub all_known : All (λ bar. (n : ℕ) × (bar.known_at_ns ≡ some n) × (n ≤ known)) bars
  pub last_known : Any (λ bar. bar.known_at_ns ≡ some known) bars
  pub last_bar : HourlyBar
  pub is_last : last? bars ≡ some last_bar
  pub close : Decimal
  pub its_close : o.origin_close ≡ some close
  pub its_value : v ≡ kit.log_ratio last_bar.close close

last-Any :
    (bars : List HourlyBar) (bar : HourlyBar) → last? bars ≡ some bar → Any (λ x. x ≡ bar) bars
last-Any [] bar h = cc
last-Any (x ∷ []) bar h = inl (ground arith)
last-Any (x ∷ y ∷ bars) bar h = inr (last-Any (y ∷ bars) bar h)

select_version-Any :
    (plane : Plane) (cutoff : ℕ) (versions : Option (List HourlyBar)) (bar : HourlyBar)
    → plane ≡ as_observed
    → select_version plane (some cutoff) versions ≡ ok (chosen bar)
    → Any (λ x. x ≡ bar) (known_versions cutoff versions)
unfolding select_version
select_version-Any historical_reconstruction cutoff versions bar o h = cc
select_version-Any as_observed cutoff none bar o h = cc
select_version-Any as_observed cutoff (some bars) bar o h =
    last-Any (keep (is_known_by cutoff) bars) bar
      (qualify-chosen (last? (keep (is_known_by cutoff) bars)) bar (cc)).0

next_hour : (t : ℕ) → pos t +ℤ pos hour_ns ≡ pos (t + hour_ns)
unfolding ◌+ℤ◌
next_hour t = ground arith

collect-Hourly :
    (s : HourlySeries) (cutoff t count : ℕ) (bars : List HourlyBar)
    → s.key.availability_plane ≡ as_observed
    → collect s (some cutoff) (starts_from (pos t) count hour_ns) ≡ ok (all_chosen bars)
    → Hourly s cutoff t bars × (length bars ≡ count)
unfolding starts_from select
collect-Hourly s cutoff t zero [] p h = (tt, refl)
collect-Hourly s cutoff t zero (b ∷ bars) p h = unfold collect in cc
collect-Hourly s cutoff t (suc count) bars p h =
    let (bar, others, e, f, same) = collect-cons s (some cutoff) (pos t) _ bars h in
    let (rest, n) = collect-Hourly s cutoff (t + hour_ns) count others p (
      subst (λ z. collect s (some cutoff) (starts_from z count hour_ns) ≡ ok (all_chosen others))
        (next_hour t) f) in
    let first = select_version-Any s.key.availability_plane cutoff _ bar p e in
    (subst (Hourly s cutoff t) (sym same) (first, rest), ap length same ∙ ap suc n)

latest_known-some :
    (cutoff : ℕ) (bar : HourlyBar) (bars : List HourlyBar)
    → All (IsUsable cutoff) (bar ∷ bars)
    → (m : ℕ) × (latest_known (bar ∷ bars) ≡ some m)
unfolding latest_known later_known
latest_known-some cutoff bar bars h = elim (Option-cases (latest_known bars)) [
  | inl nothing ↦ (h.0.known, ground (arith, h.0.recorded))
  | inr (m, more) ↦
      (if ltb h.0.known m then m else h.0.known, rw h.0.recorded (rw more (ground arith)))
]

joined :
    (a b : Option ℕ) (n m k : ℕ)
    → a ≡ some n
    → b ≡ some m
    → later_known a b ≡ some k
    → later_known (some n) (some m) ≡ some k
joined a b n m k h l e = rw h at rw l at e

later_known-cases :
    (a m k : ℕ) → later_known (some a) (some m) ≡ some k → ((a ≡ k) × (m ≤ k)) ⊎ ((m ≡ k) × (a ≤ k))
unfolding later_known
later_known-cases a m k h = elim (Bool-cases (ltb a m)) [
  | inl less ↦ inr (ground arith, ground arith)
  | inr more ↦ inl (ground arith, ground arith)
]

latest_known-bounds :
    (cutoff : ℕ) (bars : List HourlyBar) (k : ℕ)
    → All (IsUsable cutoff) bars
    → latest_known bars ≡ some k
    → All (λ bar. (n : ℕ) × (bar.known_at_ns ≡ some n) × (n ≤ k)) bars
      × Any (λ bar. bar.known_at_ns ≡ some k) bars
unfolding latest_known
latest_known-bounds cutoff [] k h e = cc
latest_known-bounds cutoff (bar ∷ []) k h e =
    let same : h.0.known ≡ k = ground (arith, h.0.recorded) in
    let at : bar.known_at_ns ≡ some k = h.0.recorded ∙ ap some same in
    (((k, at, omega arith), tt), inl at)
latest_known-bounds cutoff (bar ∷ x ∷ bars) k h e =
    let (m, more) = latest_known-some cutoff x bars h.1 in
    let (bounded, top) = latest_known-bounds cutoff (x ∷ bars) m h.1 more in
    let weaken : m ≤ k → All (λ b. (n : ℕ) × (b.known_at_ns ≡ some n) × (n ≤ k)) (x ∷ bars) =
      λ le. All-imp (λ b (n, at, small). (n, at, omega (arith, small, le))) (x ∷ bars) bounded in
    elim (later_known-cases h.0.known m k (joined bar.known_at_ns _ _ m k h.0.recorded more e)) [
      | inl (same, le) ↦
          (((h.0.known, h.0.recorded, omega arith), weaken le), inl (h.0.recorded ∙ ap some same))
      | inr (same, le) ↦ (
        ((h.0.known, h.0.recorded, le), weaken (omega arith)),
        inr (subst (λ z. Any (λ b. b.known_at_ns ≡ some z) (x ∷ bars)) same top),
      )
    ]

known_at-latest :
    (plane : Plane) (bars : List HourlyBar) (k : ℕ)
    → plane ≡ as_observed
    → known_at plane bars ≡ ok (some k)
    → latest_known bars ≡ some k
unfolding known_at
known_at-latest historical_reconstruction bars k p h = cc
known_at-latest as_observed bars k p h = elim (Option-cases (latest_known bars)) [
  | inl nothing ↦ absurd (ground arith)
  | inr (m, found) ↦ ground arith
]

check_cutoff-le :
    (plane : Plane) (as_of least : ℕ) (message : String)
    → plane ≡ as_observed
    → check_cutoff plane (some as_of) least message ≡ ok tt
    → least ≤ as_of
unfolding check_cutoff
check_cutoff-le historical_reconstruction as_of least message p h = cc
check_cutoff-le as_observed as_of least message p h = ground arith

module _ (kit : Kit) (s : HourlySeries) (o : OriginRecord) (as_of : ℕ) (r : OutcomeRecord)
    (v : Decimal) where
  outcome-chosen :
      outcome kit s o (some as_of) ≡ ok r
      → r.value ≡ some v
      → (bars : List HourlyBar) × (close : Decimal) × (last : HourlyBar) × (collect s
            (some as_of)
            (outcome_starts kit o)
          ≡ ok (all_chosen bars))
        × (known_at s.key.availability_plane bars ≡ ok r.matured_at_ns)
        × (check_cutoff s.key.availability_plane
              (some as_of)
              (endpoint_of kit o + issue_delay_ns)
              "Observed scoring needs an as-of cutoff"
            ≡ ok tt)
        × (r.endpoint_ns ≡ endpoint_of kit o)
        × (o.eligible ≡ true)
        × (o.origin_close ≡ some close)
        × (last? bars ≡ some last)
        × (v ≡ kit.log_ratio last.close close)
  unfolding outcome matured
  outcome-chosen h el = elim (Collected-cases (collect s (some as_of) (outcome_starts kit o))) [
    | inr (inl (reason, f)) ↦ absurd (ground arith)
    | inr (inr (x, f)) ↦ absurd (ground arith)
    | inl (bars, f) ↦ elim (Option-cases o.origin_close) [
      | inl without ↦ absurd (ground arith)
      | inr (close, with_close) ↦ elim (Option-cases (last? bars)) [
        | inl empty ↦ absurd (ground arith)
        | inr (last, ends) ↦ (
          bars,
          close,
          last,
          f,
          ground arith,
          ground arith,
          ground arith,
          ground arith,
          with_close,
          ends,
          ground arith,
        )
      ]
    ]
  ]

  -- An outcome of an observed series that has a value is of an eligible origin, was asked for at
  -- least a minute after the endpoint, and its value is the log ratio of a bar's close and the
  -- origin's. The bar is the last of one for each hour from the origin's end to the endpoint, which
  -- are versions of their hours known by the time asked for; and the outcome matured when the last
  -- of them was known.
  pub outcome-matured_at :
      s.key.availability_plane ≡ as_observed
      → outcome kit s o (some as_of) ≡ ok r
      → r.value ≡ some v
      → (k : ℕ) × (r.matured_at_ns ≡ some k)
        × (k ≤ as_of)
        × (r.endpoint_ns + issue_delay_ns ≤ as_of)
        × (o.eligible ≡ true)
        × Rests kit s o as_of k v
  outcome-matured_at plane h has =
      let (bars, close, last, e, known, checked, ends, el, its, at_end, value) =
        outcome-chosen h has in
      let usable = collect-IsUsable s as_of (outcome_starts kit o) bars plane e in
      let (k, stated, le) =
        known_at-le s.key.availability_plane as_of bars r.matured_at_ns plane usable known in
      let (hours, count) = collect-Hourly s as_of o.origin_end_ns _ bars plane e in
      let (bounded, top) =
        latest_known-bounds as_of bars k usable
          (known_at-latest s.key.availability_plane bars k plane (known ∙ ap ok stated)) in
      (
        k,
        stated,
        le,
        omega (arith, ends, check_cutoff-le s.key.availability_plane as_of _ _ plane checked),
        el,
        record {
          bars = bars;
          hourly = hours;
          reach = omega (arith, count);
          no_further = omega (arith, count);
          all_known = bounded;
          last_known = top;
          last_bar = last;
          is_last = at_end;
          close = close;
          its_close = its;
          its_value = value;
        },
      )
