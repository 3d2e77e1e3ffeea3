-- ===== src/Phone/Tests.antt =====
-- Runs of `normalize_uzbek_phone`, and its theorems at concrete phones.
use sardoba_app_server.Prelude.{◌≡◌, refl}
use sardoba_app_server.Text.{keep_digits, strip, has_prefix, is_digit_code, is_space_code}
use sardoba_app_server.Failure.{ok, raised, value_error}
use sardoba_app_server.Phone.{normalize_uzbek_phone}
use sardoba_app_server.Phone.Format.{IsUzbekPhone, normalize_idempotent}

local_number : normalize_uzbek_phone " 90 111-22-33 " ≡ ok "+998901112233"
unfolding normalize_uzbek_phone keep_digits strip is_digit_code is_space_code has_prefix
local_number = refl

short_number :
    normalize_uzbek_phone "+99890" ≡ raised (value_error "phone must be in format +998XXXXXXXXX")
unfolding normalize_uzbek_phone keep_digits strip is_digit_code is_space_code has_prefix
short_number = refl

-- Digits of other scripts pass as they are.
devanagari_number : normalize_uzbek_phone "९०१११२२३३" ≡ ok "+998९०१११२२३३"
unfolding normalize_uzbek_phone keep_digits strip is_digit_code is_space_code has_prefix
devanagari_number = refl

normalize_idempotent_example :
    IsUzbekPhone "+998901112233" × (normalize_uzbek_phone "+998901112233" ≡ ok "+998901112233")
normalize_idempotent_example = normalize_idempotent " 90 111-22-33 " "+998901112233" local_number
