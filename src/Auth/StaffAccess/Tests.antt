-- ===== src/Auth/StaffAccess/Tests.antt =====
-- Staff accounts at concrete databases.
use sardoba_app_server.Prelude.{◌≡◌, refl, none, some, [], ◌∷◌, count, first, arith}
use sardoba_app_server.Samples.{
  sample_settings, database_of, session_of, sample_manager, sample_waiter, with_staff,
}
use sardoba_app_server.Text.{strip, is_space_code}
use sardoba_app_server.Failure.{raised, rate_limit_exceeded}
use sardoba_app_server.Settings.{IsSettings}
use sardoba_app_server.Models.{AuthLog, Database, staff, failed_login}
use sardoba_app_server.Service.{Session}
use sardoba_app_server.Tokens.{issue_tokens}
use sardoba_app_server.Tokens.Tests.Plain.{plain_security}
use sardoba_app_server.Json.{str}
use sardoba_app_server.Auth.{log_auth_event}
use sardoba_app_server.Auth.StaffAccess.{
  staff_login, failures, recent_failure, ensure_login_rate_limit, login_allowed, staff_by_phone,
  with_password, finish_login,
}
use sardoba_app_server.Auth.StaffAccess.Lockout.{
  caller, IsStaffLogin, staff_login_over_limit, staff_login_sound,
}

abbrev failure : AuthLog
failure = record {
  id = 1;
  actor_type = staff;
  actor_id = none;
  phone = none;
  action = failed_login;
  ip = some "10.0.0.1";
  user_agent = none;
  meta = [];
  created_at = 0;
}

abbrev office : Database
office = with_staff (sample_manager ∷ sample_waiter ∷ []) [] (database_of [] [] [])

abbrev attacked : Session
attacked = session_of (with_staff (sample_manager ∷ []) (failure ∷ []) (database_of [] [] []))

sample_IsSettings : IsSettings sample_settings
sample_IsSettings = record {
  expiration = omega arith;
  otp_limit = omega arith;
  window = omega arith;
  login_limit = omega arith;
}

staff_login_over_limit_example :
    staff_login plain_security sample_settings 100 "+998905556677" "secret"
      (caller "10.0.0.1" none)
      attacked
    ≡ (raised rate_limit_exceeded, attacked)
unfolding failures recent_failure count
staff_login_over_limit_example =
    staff_login_over_limit plain_security sample_settings 100 "+998905556677" "secret" "10.0.0.1"
      none attacked sample_IsSettings refl (omega arith)

staff_login_sound_example :
    IsStaffLogin plain_security sample_settings 100 " +998905556677 " "secret" office sample_waiter
      (issue_tokens plain_security sample_settings 100 staff 2 (("role", str "WAITER") ∷ []))
unfolding staff_login ensure_login_rate_limit login_allowed failures recent_failure count
    staff_by_phone strip is_space_code first with_password finish_login log_auth_event
staff_login_sound_example =
    staff_login_sound plain_security sample_settings 100 " +998905556677 " "secret"
      (caller "10.0.0.1" none) (session_of office) sample_waiter
      (issue_tokens plain_security sample_settings 100 staff 2 (("role", str "WAITER") ∷ [])) refl
