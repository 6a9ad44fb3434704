-- ===== src/Recovery/Budget/Pacing.antt =====
-- src/scryntic/recovery/budget.py, `admit_request`: "One shared monotonic request/start pacing gate".
use scryntic.Prelude.{
  ℕ, ◌+◌, ◌≤◌, ◌≡◌, false, List, [], ◌∷◌, arith, All, if◌then◌else◌, ltb, Bool-cases, inl, inr,
  All-imp,
}
use scryntic.Recovery.Budget.{SharedBudget, admit_request}

-- The clock values, out of those at which the gate is asked, at which it admits.
pub admitted : SharedBudget → List ℕ → List ℕ
admitted b [] = []
admitted b (now ∷ later) =
    let (b', admits) = admit_request b now in
    let rest = admitted b' later in if admits then now ∷ rest else rest

-- each is at least `gap` after the one before
abbrev pub Spaced : ℕ → List ℕ → Type 0
Spaced gap [] = Unit
Spaced gap (x ∷ []) = Unit
Spaced gap (x ∷ y ∷ r) = (x + gap ≤ y) × Spaced gap (y ∷ r)

Spaced-cons :
    (gap x : ℕ) (xs : List ℕ) → All (λ y. x + gap ≤ y) xs → Spaced gap xs → Spaced gap (x ∷ xs)
Spaced-cons gap x [] h k = tt
Spaced-cons gap x (y ∷ r) h k = (h.0, k)

abbrev passed : SharedBudget → ℕ → SharedBudget
passed b now = record b { next_request = now + b.request_interval }

ltb→ge : (a b : ℕ) → ltb a b ≡ false → b ≤ a
ltb→ge a b h = ground arith

admitted-after :
    (b : SharedBudget) (nows : List ℕ) → All (λ y. b.next_request ≤ y) (admitted b nows)
unfolding admitted admit_request
admitted-after b [] = tt
admitted-after b (now ∷ later) = elim (Bool-cases (ltb now b.next_request)) [
  | inl early ↦ rw early (admitted-after b later)
  | inr due ↦
      let d = ltb→ge now b.next_request due in
      rw due (
        d,
        All-imp (λ y h. omega arith) (admitted (passed b now) later)
            (admitted-after (passed b now) later),
      )
]

spaced : (b : SharedBudget) (nows : List ℕ) → Spaced b.request_interval (admitted b nows)
unfolding admitted admit_request
spaced b [] = tt
spaced b (now ∷ later) = elim (Bool-cases (ltb now b.next_request)) [
  | inl early ↦ rw early (spaced b later)
  | inr due ↦ rw due (
      Spaced-cons b.request_interval now (admitted (passed b now) later)
        (admitted-after (passed b now) later) (spaced (passed b now) later))
]

-- Whenever the live and the historical side ask, two admitted requests in a row are at least the
-- request interval apart, and none comes before the time that the gate had set.
pub admitted-Spaced :
    (b : SharedBudget) (nows : List ℕ)
    → Spaced b.request_interval (admitted b nows) × All (λ y. b.next_request ≤ y) (admitted b nows)
admitted-Spaced b nows = (spaced b nows, admitted-after b nows)
