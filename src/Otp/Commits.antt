-- ===== src/Otp/Commits.antt =====
-- `request_otp` and `verify_otp` of app/services/otp_service.py only flush: they commit nothing.
use sardoba_app_server.Prelude.{ℕ, String, Bool, Option, none, some}
use sardoba_app_server.Service.Keeps.{
  Uncommitted, Uncommitted-pure, Uncommitted-raise, Uncommitted-lift, Uncommitted-query,
  Uncommitted-if, Uncommitted-write, Uncommitted-unless, Uncommitted-bind,
}
use sardoba_app_server.Models.{OtpCode}
use sardoba_app_server.Otp.{
  OtpService, OtpRequest, check_limits, add_demo_code, send_otp, issue_otp, request_otp, redeem,
  verify_missing, verify_found, verify_otp,
}

pub ruleset flush_rules = (
  Uncommitted-pure, Uncommitted-raise, Uncommitted-lift, Uncommitted-query, Uncommitted-if,
  Uncommitted-write, Uncommitted-unless, Uncommitted-bind,
)

check_limits-Uncommitted :
    (o : OtpService) (now : ℕ) (phone purpose : String) (ip : Option String)
    → Uncommitted (check_limits o now phone purpose ip)
unfolding check_limits
check_limits-Uncommitted o now phone purpose ip = search flush_rules depth 9

redeem-Uncommitted :
    (now : ℕ) (phone code purpose : String) (c : OtpCode)
    → Uncommitted (redeem now phone code purpose c)
unfolding redeem
redeem-Uncommitted now phone code purpose c = search flush_rules depth 9

add_demo_code-Uncommitted :
    (o : OtpService) (now : ℕ) (phone purpose : String) (ip user_agent : Option String)
    → Uncommitted (add_demo_code o now phone purpose ip user_agent)
unfolding add_demo_code
add_demo_code-Uncommitted o now phone purpose ip user_agent = search flush_rules

send_otp-Uncommitted :
    (o : OtpService) (sms : String → String → Bool) (phone code : String)
    → Uncommitted (send_otp o sms phone code)
unfolding send_otp
send_otp-Uncommitted o sms phone code = search flush_rules

issue_otp-Uncommitted :
    (o : OtpService) (sms : String → String → Bool) (now : ℕ) (random_code : String)
    (r : OtpRequest) (phone : String)
    → Uncommitted (issue_otp o sms now random_code r phone)
unfolding issue_otp
issue_otp-Uncommitted o sms now random_code r phone =
    search (flush_rules, add_demo_code-Uncommitted, send_otp-Uncommitted) depth 15

-- A request for a code commits nothing, whether it succeeds or raises at any of its steps.
pub request_otp-Uncommitted :
    (o : OtpService) (sms : String → String → Bool) (now : ℕ) (random_code : String)
    (r : OtpRequest)
    → Uncommitted (request_otp o sms now random_code r)
unfolding request_otp
request_otp-Uncommitted o sms now random_code r =
    search (flush_rules, check_limits-Uncommitted, issue_otp-Uncommitted) depth 9

verify_missing-Uncommitted :
    (o : OtpService) (now : ℕ) (phone code purpose : String)
    → Uncommitted (verify_missing o now phone code purpose)
unfolding verify_missing
verify_missing-Uncommitted o now phone code purpose =
    search (flush_rules, redeem-Uncommitted) depth 9

verify_found-Uncommitted :
    (o : OtpService) (now : ℕ) (phone code purpose : String) (found : Option OtpCode)
    → Uncommitted (verify_found o now phone code purpose found)
unfolding verify_found
verify_found-Uncommitted o now phone code purpose none =
    verify_missing-Uncommitted o now phone code purpose
verify_found-Uncommitted o now phone code purpose (some c) =
    redeem-Uncommitted now phone code purpose c

-- A verification commits nothing either: its caller does.
pub verify_otp-Uncommitted :
    (o : OtpService) (now : ℕ) (raw_phone code purpose : String)
    → Uncommitted (verify_otp o now raw_phone code purpose)
unfolding verify_otp
verify_otp-Uncommitted o now raw_phone code purpose =
    search (flush_rules, verify_found-Uncommitted) depth 9
