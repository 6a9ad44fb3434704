-- ===== src/Domain/Validation.antt =====
-- src/scryntic/domain/validation.py. The tests of a Python type are the types of the model.
use scryntic.Prelude.{
  ℕ, String, Bool, false, ◌&&◌, ◌||◌, List, [], ◌∷◌, leb, ◌==◌, length, all, Result, value_error,
  require, refuse,
}
use scryntic.Prelude.Int.{ℤ, ltb_ℤ}
use scryntic.Prelude.Text.{codes}

-- `[A-Za-z0-9]`
is_alphanumeric : ℕ → Bool
is_alphanumeric c =
    (leb b'A' c && leb c b'Z') || (leb b'a' c && leb c b'z') || (leb b'0' c && leb c b'9')

-- `[A-Za-z0-9_.:-]`
is_identifier_char : ℕ → Bool
unfolding is_alphanumeric
is_identifier_char c = is_alphanumeric c || (c == b'_' || c == b'.' || c == b':' || c == b'-')

-- `re.fullmatch(r"[A-Za-z0-9][A-Za-z0-9_.:-]{0,255}", value)`
unfoldable pub is_identifier : List ℕ → Bool
unfolding is_alphanumeric is_identifier_char
is_identifier [] = false
is_identifier (c ∷ cs) = is_alphanumeric c && (leb (length cs) 255 && all is_identifier_char cs)

unfoldable pub identifier : String → Result (Unit {0})
unfolding is_identifier
identifier value =
    require (is_identifier (codes value)) (value_error "Expected a bounded opaque identifier")

-- `integer(value, minimum)`
unfoldable pub integer : ℤ → ℤ → Result (Unit {0})
integer value minimum = refuse (ltb_ℤ value minimum) (value_error "Integer below allowed minimum")

is_hex_digit : ℕ → Bool
is_hex_digit c = (leb b'0' c && leb c b'9') || (leb b'a' c && leb c b'f')

-- `re.fullmatch(r"[0-9a-f]{64}", value)`
unfoldable pub digest : String → Result (Unit {0})
unfolding is_hex_digit
digest value =
    require (length (codes value) == 64 && all is_hex_digit (codes value))
      (value_error "Expected a lowercase SHA-256 digest")
