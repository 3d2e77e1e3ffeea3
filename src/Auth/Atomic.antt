-- ===== src/Auth/Atomic.antt =====
-- `request_client_otp` and `verify_client_otp` of app/services/auth_service.py commit at their end only.
use sardoba_app_server.Prelude.{ℕ, ◌≡◌, String, Bool, Option, none, some}
use sardoba_app_server.Failure.{Failure, raised}
use sardoba_app_server.Models.{User, Staff, Database}
use sardoba_app_server.Service.{request}
use sardoba_app_server.Service.Keeps.{Uncommitted, rejected-request}
use sardoba_app_server.Otp.{OtpService}
use sardoba_app_server.Otp.Commits.{flush_rules, request_otp-Uncommitted, verify_otp-Uncommitted}
use sardoba_app_server.Tokens.{Security}
use sardoba_app_server.Auth.{
  Caller, Verification, check_account, prepare_client_otp, request_client_otp, find_waiter,
  existing_user, register_user, account, enter_account, prepare_login, verify_client_otp,
}

check_account-Uncommitted :
    (purpose : String) (found : Option User) → Uncommitted (check_account purpose found)
unfolding check_account
check_account-Uncommitted purpose found = search flush_rules

find_waiter-Uncommitted : (code : Option String) → Uncommitted (find_waiter code)
unfolding find_waiter
find_waiter-Uncommitted none = search flush_rules
find_waiter-Uncommitted (some code) = search flush_rules depth 9

account-Uncommitted :
    (v : Verification) (phone : String) (w : Option Staff) (found : Option User)
    → Uncommitted (account v phone w found)
unfolding existing_user register_user
account-Uncommitted v phone w none = search flush_rules depth 9
account-Uncommitted v phone w (some u) = search flush_rules depth 9

prepare_client_otp-Uncommitted :
    (o : OtpService) (sms : String → String → Bool) (now : ℕ)
    (random_code raw_phone purpose : String) (by : Caller)
    → Uncommitted (prepare_client_otp o sms now random_code raw_phone purpose by)
unfolding prepare_client_otp
prepare_client_otp-Uncommitted o sms now random_code raw_phone purpose by =
    search (flush_rules, check_account-Uncommitted, request_otp-Uncommitted) depth 12

enter_account-Uncommitted :
    (x : Security) (o : OtpService) (now : ℕ) (v : Verification) (by : Caller) (phone : String)
    (otp_id : ℕ) (w : Option Staff)
    → Uncommitted (enter_account x o now v by phone otp_id w)
unfolding enter_account
enter_account-Uncommitted x o now v by phone otp_id w =
    search (flush_rules, account-Uncommitted) depth 12

prepare_login-Uncommitted :
    (x : Security) (o : OtpService) (now : ℕ) (v : Verification) (by : Caller)
    → Uncommitted (prepare_login x o now v by)
unfolding prepare_login
prepare_login-Uncommitted x o now v by =
    search (flush_rules, verify_otp-Uncommitted, find_waiter-Uncommitted, enter_account-Uncommitted)
      depth 16

-- A request for a code that is refused, for whatever reason, leaves the committed database as it was.
pub request_client_otp_refused :
    (o : OtpService) (sms : String → String → Bool) (now : ℕ)
    (random_code raw_phone purpose : String) (by : Caller) (db : Database) (e : Failure)
    → (request (request_client_otp o sms now random_code raw_phone purpose by) db).0 ≡ raised e
    → (request (request_client_otp o sms now random_code raw_phone purpose by) db).1 ≡ db
unfolding request_client_otp
request_client_otp_refused o sms now random_code raw_phone purpose by db e h =
    rejected-request (prepare_client_otp o sms now random_code raw_phone purpose by) (λ _. tt) db e
      (prepare_client_otp-Uncommitted o sms now random_code raw_phone purpose by) h

-- A verification that fails, for whatever reason, leaves the committed database as it was: no account is
-- made or changed, and the code is not used up.
pub verify_client_otp_refused :
    (x : Security) (o : OtpService) (now : ℕ) (v : Verification) (by : Caller) (db : Database)
    (e : Failure)
    → (request (verify_client_otp x o now v by) db).0 ≡ raised e
    → (request (verify_client_otp x o now v by) db).1 ≡ db
unfolding verify_client_otp
verify_client_otp_refused x o now v by db e h =
    rejected-request (prepare_login x o now v by) (λ r. r) db e
      (prepare_login-Uncommitted x o now v by) h
