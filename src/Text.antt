-- ===== src/Text.antt =====
-- Python's `str` as a sequence of characters: `isdigit`, `strip`, `startswith`, `len`, `+`, `lower`.
mod Unicode
pub mod Laws
use Prim.Native.Char.{Char, code}
use Prim.Native.String.{[], ◌∷◌}
use sardoba_app_server.Prelude.{
  ℕ, suc, ◌+◌, String, Bool, true, false, ◌&&◌, ◌==◌, leb, if◌then◌else◌,
}
pub use Unicode.{space_not_digit}
unfoldable pub use Unicode.{is_digit_code, is_space_code}

abbrev pub is_digit : Char → Bool
is_digit c = is_digit_code (code c)

abbrev pub is_space : Char → Bool
is_space c = is_space_code (code c)

-- len(s)
abbrev pub count_chars : String → ℕ
count_chars [] = 0
count_chars (c ∷ s) = suc (count_chars s)

-- s + t
abbrev pub join : String → String → String
join [] t = t
join (c ∷ s) t = c ∷ join s t

-- "".join(ch for ch in s if ch.isdigit())
unfoldable pub keep_digits : String → String
keep_digits [] = []
keep_digits (c ∷ s) = if is_digit c then c ∷ keep_digits s else keep_digits s

unfoldable pub strip_left : String → String
strip_left [] = []
strip_left (c ∷ s) = if is_space c then strip_left s else c ∷ s

-- A space goes if nothing is left behind it.
abbrev drop_last_space : Char → String → String
drop_last_space c [] = if is_space c then [] else c ∷ []
drop_last_space c (d ∷ s) = c ∷ d ∷ s

unfoldable pub strip_right : String → String
strip_right [] = []
strip_right (c ∷ s) = drop_last_space c (strip_right s)

unfoldable pub strip : String → String
unfolding strip_left strip_right
strip s = strip_right (strip_left s)

-- s.startswith(p)
unfoldable pub has_prefix : String → String → Bool
has_prefix [] s = true
has_prefix (c ∷ p) [] = false
has_prefix (c ∷ p) (d ∷ s) = code c == code d && has_prefix p s

-- `s.lower() == word` for a word in lower-case ASCII without `k`: no character outside ASCII has such
-- a letter for its lower case (the Kelvin sign has `k`).
abbrev lower_code : ℕ → ℕ
lower_code c = if leb 65 c && leb c 90 then c + 32 else c

unfoldable pub lower_is : String → String → Bool
lower_is [] [] = true
lower_is [] (d ∷ w) = false
lower_is (c ∷ s) [] = false
lower_is (c ∷ s) (d ∷ w) = lower_code (code c) == code d && lower_is s w
