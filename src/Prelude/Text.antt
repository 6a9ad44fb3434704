-- ===== src/Prelude/Text.antt =====
-- Text: the code points of a string, and the closed formats that the contracts check.
use Prim.Native.Char.{code}
use text.Mathlib.Text.{◌==◌ as text_eq}
use text.Mathlib.TextEquality.{eq_iff as text_eq_iff}
use mathlib.Core.Bool.{false≢true}
use scryntic.Prelude.{
  ℕ, String, Bool, true, List, [], ◌∷◌, ◌≡◌, ◌↔◌, Bool-cases, inl, inr, sym, ◌∙◌,
}

abbrev pub str_eq : String → String → Bool
str_eq = text_eq

pub str_eq_iff : (s t : String) → (str_eq s t ≡ true) ↔ (s ≡ t)
str_eq_iff s t = text_eq_iff s t

abbrev pub codes : String → List ℕ
codes String.[] = []
codes (String.◌∷◌ c s) = code c ∷ codes s

-- `==` of two texts, decided
pub String_discrete : Discrete String
String_discrete s t = elim (Bool-cases (str_eq s t)) [
  | inl same ↦ yes ((str_eq_iff s t).0 same)
  | inr other ↦ no λ e. false≢true (sym other ∙ (str_eq_iff s t).1 e)
]
