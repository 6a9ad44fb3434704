-- ===== src/Prelude/Sort.antt =====
-- Python's `sorted` by an integer key, and `sorted(set(xs))`, as insertion sorts: the results of a
-- stable sort are fixed by the input.
use scryntic.Prelude.{ℕ, ◌-◌, zero, suc, List, [], ◌∷◌, length, if◌then◌else◌}
use scryntic.Prelude.Int.{ℤ, leb_ℤ, ltb_ℤ, eq_ℤ}

module _ {ℓ} {A : Type ℓ} (key : A → ℤ) where
  unfoldable pub insert_by : A → List A → List A
  insert_by x [] = x ∷ []
  insert_by x (y ∷ ys) = if leb_ℤ (key x) (key y) then x ∷ y ∷ ys else y ∷ insert_by x ys

  unfoldable pub sort_by : List A → List A
  sort_by [] = []
  sort_by (x ∷ xs) = insert_by x (sort_by xs)

-- into an increasing list, once
unfoldable pub insert_new : ℤ → List ℤ → List ℤ
insert_new x [] = x ∷ []
insert_new x (y ∷ ys) =
    if ltb_ℤ x y then x ∷ y ∷ ys else if eq_ℤ x y then y ∷ ys else y ∷ insert_new x ys

unfoldable pub sorted_set : List ℤ → List ℤ
unfolding insert_new
sorted_set [] = []
sorted_set (x ∷ xs) = insert_new x (sorted_set xs)

module _ {ℓ} {A : Type ℓ} where
  abbrev pub drop : ℕ → List A → List A
  drop zero xs = xs
  drop (suc n) [] = []
  drop (suc n) (x ∷ xs) = drop n xs

  -- `xs[-n:]`, for n > 0
  abbrev pub take_last : ℕ → List A → List A
  take_last n xs = drop (length xs - n) xs
