-- ===== src/Prelude/Lists.antt =====
-- Lists measured and indexed by native numbers, under the library's names, with Boolean searches
-- and a predicate on all items.
use Prim.Native.Nat.{ℕ, zero, suc, ◌+◌, ◌<◌}
use mathlib.Core.Path.{◌≡◌, refl, ap, sym, ◌∙◌}
use mathlib.Core.Bool.{Bool, true, false, ◌&&◌, ◌||◌, false≢true}
use mathlib.Core.List.{List, [], ◌∷◌, ◌++◌, map}
use mathlib.Core.Option.{Option, none, some}
use native.Mathlib.Omega.{arith}
use mathlib.Core.Logic.{◌⊎◌, inl, inr}
use scryntic.Prelude.Tests.{if◌then◌else◌, Bool-cases}

module _ {ℓ} {A : Type ℓ} where
  abbrev pub length : List A → ℕ
  length [] = 0
  length (x ∷ xs) = suc (length xs)

  abbrev pub get_elem? : List A → ℕ → Option A
  get_elem? [] i = none
  get_elem? (x ∷ xs) zero = some x
  get_elem? (x ∷ xs) (suc i) = get_elem? xs i

  -- A write out of bounds changes nothing.
  abbrev pub set : List A → ℕ → A → List A
  set [] i v = []
  set (x ∷ xs) zero v = v ∷ xs
  set (x ∷ xs) (suc i) v = x ∷ set xs i v

  abbrev pub any : (A → Bool) → List A → Bool
  any p [] = false
  any p (x ∷ xs) = p x || any p xs

  abbrev pub all : (A → Bool) → List A → Bool
  all p [] = true
  all p (x ∷ xs) = p x && all p xs

  -- Python's `[x for x in xs if p(x)]`.
  abbrev pub keep : (A → Bool) → List A → List A
  keep p [] = []
  keep p (x ∷ xs) = let rest = keep p xs in if p x then x ∷ rest else rest

  abbrev pub All {κ} : (A → Type κ) → List A → Type κ
  All P [] = Unit
  All P (x ∷ xs) = P x × All P xs

  abbrev pub last? : List A → Option A
  last? [] = none
  last? (x ∷ []) = some x
  last? (x ∷ y ∷ r) = last? (y ∷ r)

module _ {ℓ} {A : Type ℓ} where
  pub length-append : (xs ys : List A) → length (xs ++ ys) ≡ length xs + length ys
  length-append [] ys = omega arith
  length-append (x ∷ xs) ys = omega (arith, length-append xs ys)

  pub length-set : (xs : List A) (i : ℕ) (v : A) → length (set xs i v) ≡ length xs
  length-set [] i v = refl
  length-set (x ∷ xs) zero v = refl
  length-set (x ∷ xs) (suc i) v = ap suc (length-set xs i v)

  pub get_elem?-set_self :
      (xs : List A) (i : ℕ) (v : A) → i < length xs → get_elem? (set xs i v) i ≡ some v
  get_elem?-set_self [] i v h = elim h [ ]
  get_elem?-set_self (x ∷ xs) zero v h = refl
  get_elem?-set_self (x ∷ xs) (suc i) v h = get_elem?-set_self xs i v (omega arith)

  pub All-append {κ} : (P : A → Type κ) (xs ys : List A) → All P xs → All P ys → All P (xs ++ ys)
  All-append P [] ys h k = k
  All-append P (x ∷ xs) ys h k = (h.0, All-append P xs ys h.1 k)

  pub All-imp {κ μ} :
      {P : A → Type κ} {Q : A → Type μ} (f : (a : A) → P a → Q a) (xs : List A)
      → All P xs
      → All Q xs
  All-imp f [] h = tt
  All-imp f (x ∷ xs) h = (f x h.0, All-imp f xs h.1)

  pub All-set {κ} :
      (P : A → Type κ) (xs : List A) (i : ℕ) (v : A) → P v → All P xs → All P (set xs i v)
  All-set P [] i v p h = tt
  All-set P (x ∷ xs) zero v p h = (p, h.1)
  All-set P (x ∷ xs) (suc i) v p h = (h.0, All-set P xs i v p h.1)

-- "There is an item with P", as a sum over the list.
module _ {A : Type 0} (P : A → Type 0) where
  abbrev pub Any : List A → Type 0
  Any [] = ⊥
  Any (x ∷ xs) = P x ⊎ Any xs

module _ {A : Type 0} (P : A → Type 0) (p : A → Bool) where
  pub Any-keep : (xs : List A) → Any P (keep p xs) → Any (λ x. P x × (p x ≡ true)) xs
  Any-keep [] h = elim h [ ]
  Any-keep (x ∷ xs) h = elim (Bool-cases (p x)) [
    | inl t ↦
        (let k : P x ⊎ Any P (keep p xs) = rw t at h in
          elim k [ inl a ↦ inl (a, t) | inr r ↦ inr (Any-keep xs r) ])
    | inr f ↦ inr (Any-keep xs (rw f at h))
  ]

  pub keep-Any : (xs : List A) → Any (λ x. P x × (p x ≡ true)) xs → Any P (keep p xs)
  keep-Any [] h = elim h [ ]
  keep-Any (x ∷ xs) (inl h) = rw h.1 (inl h.0)
  keep-Any (x ∷ xs) (inr h) = elim (Bool-cases (p x)) [
    | inl t ↦ rw t (inr (keep-Any xs h))
    | inr f ↦ rw f (keep-Any xs h)
  ]

module _ {A : Type 0} (P Q : A → Type 0) where
  pub Any-imp : (f : (a : A) → P a → Q a) (xs : List A) → Any P xs → Any Q xs
  Any-imp f [] h = elim h [ ]
  Any-imp f (x ∷ xs) (inl h) = inl (f x h)
  Any-imp f (x ∷ xs) (inr h) = inr (Any-imp f xs h)

module _ {A : Type 0} (P Q : A → Type 0) where
  pub Any-All : (xs : List A) → Any P xs → All Q xs → Any (λ x. P x × Q x) xs
  Any-All [] h k = elim h [ ]
  Any-All (x ∷ xs) (inl h) k = inl (h, k.0)
  Any-All (x ∷ xs) (inr h) k = inr (Any-All xs h k.1)

module _ {A : Type 0} (Q : A → Type 0) (p : A → Bool) where
  pub All-of_keep : (xs : List A) → All Q (keep p xs) → All (λ x. p x ≡ true → Q x) xs
  All-of_keep [] h = tt
  All-of_keep (x ∷ xs) h = elim (Bool-cases (p x)) [
    | inl t ↦ (let k : Q x × All Q (keep p xs) = rw t at h in (λ _. k.0, All-of_keep xs k.1))
    | inr f ↦ (λ t. absurd (false≢true (sym f ∙ t)), All-of_keep xs (rw f at h))
  ]

  pub All-keep : (xs : List A) → All (λ x. p x ≡ true → Q x) xs → All Q (keep p xs)
  All-keep [] h = tt
  All-keep (x ∷ xs) h = elim (Bool-cases (p x)) [
    | inl t ↦ rw t (h.0 t, All-keep xs h.1)
    | inr f ↦ rw f (All-keep xs h.1)
  ]

module _ {ℓ κ} {A : Type ℓ} {B : Type κ} where
  pub length-map : (f : A → B) (xs : List A) → length (map f xs) ≡ length xs
  length-map f [] = refl
  length-map f (x ∷ xs) = ap suc (length-map f xs)

module _ {A : Type 0} (P : A → Type 0) where
  pub Any-append_right : (xs ys : List A) → Any P ys → Any P (xs ++ ys)
  Any-append_right [] ys h = h
  Any-append_right (x ∷ xs) ys h = inr (Any-append_right xs ys h)
