-- ===== src/Text/Laws.antt =====
-- Laws of the text functions.
use Prim.Native.Char.{Char}
use Prim.Native.String.{[], ◌∷◌}
use sardoba_app_server.Prelude.{◌+◌, ◌≡◌, refl, ap, ◌∙◌, String, arith, Bool-cases, inl, inr}
use sardoba_app_server.Text.{
  is_digit, is_space, count_chars, join, keep_digits, strip_left, drop_last_space, strip_right,
  strip, space_not_digit,
}

pub keep_digits_idem : (s : String) → keep_digits (keep_digits s) ≡ keep_digits s
unfolding keep_digits
keep_digits_idem [] = refl
keep_digits_idem (c ∷ s) = elim (Bool-cases (is_digit c)) [
  | inl e ↦ rw e (rw e (ap (◌∷◌ c) (keep_digits_idem s)))
  | inr e ↦ rw e (keep_digits_idem s)
]

keep_digits-strip_left : (s : String) → keep_digits (strip_left s) ≡ keep_digits s
unfolding keep_digits strip_left
keep_digits-strip_left [] = refl
keep_digits-strip_left (c ∷ s) = elim (Bool-cases (is_space c)) [
  | inl e ↦ rw (e, space_not_digit _ e) (keep_digits-strip_left s)
  | inr e ↦ rw e
]

keep_digits-drop : (c : Char) (s : String) → keep_digits (drop_last_space c s) ≡ keep_digits (c ∷ s)
unfolding keep_digits
keep_digits-drop c [] = elim (Bool-cases (is_space c)) [
  | inl e ↦ rw (e, space_not_digit _ e)
  | inr e ↦ rw e
]
keep_digits-drop c (d ∷ s) = refl

keep_digits-cons :
    (c : Char) (s t : String)
    → keep_digits s ≡ keep_digits t
    → keep_digits (c ∷ s) ≡ keep_digits (c ∷ t)
unfolding keep_digits
keep_digits-cons c s t e = rw e

keep_digits-strip_right : (s : String) → keep_digits (strip_right s) ≡ keep_digits s
unfolding strip_right
keep_digits-strip_right [] = refl
keep_digits-strip_right (c ∷ s) =
    keep_digits-drop c (strip_right s)
    ∙ keep_digits-cons c (strip_right s) s (keep_digits-strip_right s)

-- Stripping loses no digit.
pub keep_digits-strip : (s : String) → keep_digits (strip s) ≡ keep_digits s
unfolding strip
keep_digits-strip s = keep_digits-strip_right (strip_left s) ∙ keep_digits-strip_left s

pub keep_digits-join :
    (s t : String) → keep_digits (join s t) ≡ join (keep_digits s) (keep_digits t)
unfolding keep_digits
keep_digits-join [] t = refl
keep_digits-join (c ∷ s) t = ground (arith, keep_digits-join s t)

pub count_chars-join : (s t : String) → count_chars (join s t) ≡ count_chars s + count_chars t
count_chars-join [] t = omega arith
count_chars-join (c ∷ s) t = omega (arith, count_chars-join s t)
