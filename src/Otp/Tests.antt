-- ===== src/Otp/Tests.antt =====
-- Runs of the one-time codes, and their theorems at concrete sessions.
use sardoba_app_server.Prelude.{
  ◌<◌, ◌≡◌, refl, String, Bool, true, none, [], ◌∷◌, arith, count, first, order_by,
}
use sardoba_app_server.Samples.{sample_settings, database_of, session_of, sample_code}
use sardoba_app_server.Text.{keep_digits, strip, has_prefix, is_digit_code, is_space_code, lower_is}
use sardoba_app_server.Failure.{ok, raised, rate_limit_exceeded}
use sardoba_app_server.Phone.{normalize_uzbek_phone}
use sardoba_app_server.Settings.{IsSettings}
use sardoba_app_server.Service.{Session}
use sardoba_app_server.Service.Keeps.{Uncommitted}
use sardoba_app_server.Otp.{
  OtpService, OtpRequest, request_otp, verify_otp, find_code, verify_found, redeem, matches,
  latest_first, enforces_limit, is_among, is_demo, recent_for_phone, is_recent, used,
}
use sardoba_app_server.Otp.Checks.{IsRedeemed, HasGround, verify_otp_sound}
use sardoba_app_server.Otp.SingleUse.{stored, verify_otp_uses_up}
use sardoba_app_server.Otp.Limits.{request_otp_over_limit}
use sardoba_app_server.Otp.Commits.{request_otp-Uncommitted}

abbrev pub service : OtpService
service = record {
  settings = sample_settings;
  rate_limit_bypass = [];
  verify_bypass = [];
  demo_phone = none;
  demo_code = "1111";
}

abbrev with_code : Session
with_code = session_of (database_of [] (sample_code ∷ []) [])

abbrev without_code : Session
without_code = session_of (database_of [] [] [])

-- Two codes within the window: the limit.
abbrev with_two : Session
with_two = session_of (database_of [] (sample_code ∷ record sample_code { id = 4 } ∷ []) [])

abbrev request_login : OtpRequest
request_login = record { phone = "90 111-22-33"; purpose = "login"; ip = none; user_agent = none }

abbrev provider : String → String → Bool
provider phone message = true

sample_IsSettings : IsSettings sample_settings
sample_IsSettings = record {
  expiration = omega arith;
  otp_limit = omega arith;
  window = omega arith;
  login_limit = omega arith;
}

pub normalized : normalize_uzbek_phone "90 111-22-33" ≡ ok "+998901112233"
unfolding normalize_uzbek_phone keep_digits strip is_digit_code is_space_code has_prefix
normalized = refl

verify_otp_sound_example :
    IsRedeemed 100 "+998901112233" "1234" "login" (used sample_code)
    × HasGround service "+998901112233" "1234" "login" with_code
unfolding verify_otp normalize_uzbek_phone keep_digits strip is_digit_code is_space_code has_prefix
    find_code matches latest_first order_by first redeem verify_found
verify_otp_sound_example =
    verify_otp_sound service 100 "90 111-22-33" "+998901112233" "1234" "login" (used sample_code)
      with_code normalized refl

verify_otp_uses_up_example :
    stored "+998901112233" "1234" "login"
      (verify_otp service 100 "90 111-22-33" "1234" "login" with_code).1
    < stored "+998901112233" "1234" "login" with_code
unfolding count matches
verify_otp_uses_up_example =
    verify_otp_uses_up service 100 "90 111-22-33" "+998901112233" "1234" "login" with_code
      normalized (omega arith)

request_otp_over_limit_example :
    request_otp service provider 100 "555555" request_login with_two
    ≡ (raised rate_limit_exceeded, with_two)
unfolding enforces_limit is_demo is_among lower_is count recent_for_phone is_recent
request_otp_over_limit_example =
    request_otp_over_limit service provider 100 "555555" request_login "+998901112233" with_two
      sample_IsSettings normalized refl (omega arith)

request_otp-Uncommitted_example :
    Uncommitted (request_otp service provider 100 "555555" request_login)
request_otp-Uncommitted_example =
    request_otp-Uncommitted service provider 100 "555555" request_login
