-- ===== src/Phone.antt =====
-- app/core/phone.py
pub mod Format
mod Tests
use Prim.Native.String.{[], ◌∷◌}
use sardoba_app_server.Prelude.{String, if◌then◌else◌, ◌==◌}
use sardoba_app_server.Text.{count_chars, join, keep_digits, strip, has_prefix}
use sardoba_app_server.Failure.{Outcome, ok, raised, value_error}

abbrev bad_format : String
bad_format = "phone must be in format +998XXXXXXXXX"

-- The part of the function behind the extraction of the digits.
unfoldable pub normalize_digits : String → Outcome String
normalize_digits [] = raised (value_error "phone must contain digits")
normalize_digits (c ∷ s) =
    if has_prefix "998" (c ∷ s)
    then (if count_chars (c ∷ s) == 12
        then ok (join "+" (c ∷ s))
        else raised (value_error bad_format))
    else (if count_chars (c ∷ s) == 9
        then ok (join "+998" (c ∷ s))
        else raised (value_error bad_format))

unfoldable pub normalize_uzbek_phone : String → Outcome String
unfolding normalize_digits
normalize_uzbek_phone phone = normalize_digits (keep_digits (strip phone))
