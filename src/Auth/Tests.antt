-- ===== src/Auth/Tests.antt =====
-- Client logins at concrete databases.
use sardoba_app_server.Prelude.{
  ◌≡◌, refl, String, Bool, true, none, some, [], ◌∷◌, first, update_rows, order_by, arith, inr,
  mem_head,
}
use sardoba_app_server.Samples.{sample_settings, database_of, sample_code, sample_user}
use sardoba_app_server.Text.{keep_digits, strip, has_prefix, is_digit_code, is_space_code, lower_is}
use sardoba_app_server.Failure.{ok, raised, not_found_error, otp_invalid}
use sardoba_app_server.Phone.{normalize_uzbek_phone}
use sardoba_app_server.Models.{Database, client, User}
use sardoba_app_server.Service.{request}
use sardoba_app_server.Otp.{
  OtpService, verify_otp, find_code, verify_found, redeem, matches, mark_used, is_found,
  latest_first, is_among, verify_missing,
}
use sardoba_app_server.Tokens.{issue_tokens}
use sardoba_app_server.Tokens.Tests.Plain.{plain_security}
use sardoba_app_server.Auth.{
  Caller, Verification, request_client_otp, verify_client_otp, prepare_login, prepare_client_otp,
  active_user, check_account, find_waiter, enter_account, user_by_phone, existing_user, put_user,
  update_user_profile, log_auth_event, log_entry, otp_meta,
}
use sardoba_app_server.Auth.Atomic.{verify_client_otp_refused}
use sardoba_app_server.Auth.Register.{IsLogin, IsAccount, verify_client_otp_sound}
use sardoba_app_server.Auth.Progress.{verify_client_otp_accepts}

abbrev service : OtpService
service = record {
  settings = sample_settings;
  rate_limit_bypass = [];
  verify_bypass = [];
  demo_phone = none;
  demo_code = "1111";
}

abbrev by : Caller
by = record { ip = none; user_agent = none }

abbrev provider : String → String → Bool
provider phone message = true

abbrev shop : Database
shop = database_of (sample_user ∷ []) (sample_code ∷ []) []

abbrev right : Verification
right = record {
  phone = "90 111-22-33";
  code = "1234";
  purpose = "login";
  name = some "Ali";
  waiter_referral_code = none;
  date_of_birth = none;
}

abbrev wrong : Verification
wrong = record right { code = "9999" }

normalized : normalize_uzbek_phone "90 111-22-33" ≡ ok "+998901112233"
unfolding normalize_uzbek_phone keep_digits strip is_digit_code is_space_code has_prefix
normalized = refl

right_runs :
    (request (verify_client_otp plain_security service 100 right by) shop).0
    ≡ ok (sample_user, issue_tokens plain_security sample_settings 100 client 7 [])
unfolding verify_client_otp prepare_login normalize_uzbek_phone keep_digits strip is_digit_code
    is_space_code has_prefix verify_otp find_code matches latest_first order_by first verify_found
    redeem mark_used is_found update_rows find_waiter enter_account user_by_phone existing_user
    put_user update_user_profile log_auth_event log_entry otp_meta
right_runs = refl

verify_client_otp_sound_example :
    IsLogin plain_security service 100 right "+998901112233" shop sample_user
      (issue_tokens plain_security sample_settings 100 client 7 [])
verify_client_otp_sound_example =
    verify_client_otp_sound plain_security service 100 right by "+998901112233" shop sample_user
      (issue_tokens plain_security sample_settings 100 client 7 []) normalized right_runs

verify_client_otp_accepts_example :
    (u : User) × ((request (verify_client_otp plain_security service 100 right by) shop).0
      ≡ ok (u, issue_tokens plain_security sample_settings 100 client u.id []))
    × IsAccount right "+998901112233" (user_by_phone "+998901112233" shop) shop.users.next_id u
unfolding user_by_phone first
verify_client_otp_accepts_example =
    verify_client_otp_accepts plain_security service 100 right by "+998901112233" shop sample_code
      none normalized (mem_head refl)
      (record { phone_eq = refl; code_eq = refl; purpose_eq = refl; unused = refl })
      (inr (inr (omega arith)), tt) refl (inr (sample_user, refl))

wrong_runs :
    (request (verify_client_otp plain_security service 100 wrong by) shop).0 ≡ raised otp_invalid
unfolding verify_client_otp prepare_login normalize_uzbek_phone keep_digits strip is_digit_code
    is_space_code has_prefix verify_otp find_code matches latest_first order_by first verify_found
    verify_missing is_among
wrong_runs = refl

verify_client_otp_refused_example :
    (request (verify_client_otp plain_security service 100 wrong by) shop).1 ≡ shop
verify_client_otp_refused_example =
    verify_client_otp_refused plain_security service 100 wrong by shop otp_invalid wrong_runs

unknown_phone :
    (request (request_client_otp service provider 100 "5555" "90 000-00-00" "login" by) shop).0
    ≡ raised
        (not_found_error "Bu raqam orqali foydalanuvchi yo'q, iltimos akkaunt yaratishni bosing.")
unfolding request_client_otp prepare_client_otp normalize_uzbek_phone keep_digits strip
    is_digit_code is_space_code has_prefix active_user first check_account lower_is
unknown_phone = refl
