-- ===== src/Auth.antt =====
-- app/services/auth_service.py without its calls of iiko, and app/services/auth_log_service.py.
-- The libraries for passwords and tokens, the provider, the random texts and the time are arguments.
pub mod Atomic
pub mod StaffAccess
pub mod Register
pub mod Progress
mod Tests
use text.Mathlib.Text.{◌==◌ as str_eq}
use sardoba_app_server.Prelude.{
  is_some, ℕ, ◌+◌, ◌≤◌, String, Bool, true, false, not, ◌&&◌, ◌||◌, Option, none, some, List, [],
  ◌∷◌, ltb, leb, ◌==◌, if◌then◌else◌, first, count, update_rows,
}
use sardoba_app_server.Prelude.Int.{pos}
use sardoba_app_server.Prelude.Dict.{Dict}
use sardoba_app_server.Json.{Json, num, str}
use sardoba_app_server.Text.{strip, lower_is}
use sardoba_app_server.Failure.{
  or_raise, Failure, Outcome, ok, raised, rate_limit_exceeded, authentication_error,
  authorization_error, not_found_error, conflict_error, service_error,
}
use sardoba_app_server.Phone.{normalize_uzbek_phone}
use sardoba_app_server.Settings.{Settings}
use sardoba_app_server.Models.{
  User, silver, Staff, StaffRole, manager, waiter, AuthLog, AuthActorType, client, staff,
  AuthAction, login, otp_request, otp_verification, failed_login, OtpCode, Table, Database, add_row,
}
use sardoba_app_server.SyncJobs.{holds_text}
use sardoba_app_server.Otp.{minutes, truthy, OtpService, OtpRequest, request_otp, verify_otp}
use sardoba_app_server.Tokens.{Security, Tokens, issue_tokens}
use sardoba_app_server.Cashback.{is_manager}
use sardoba_app_server.Service.{
  Session, Service, continue, ◌>>=◌, ◌>>◌, pure, raise, lift, query, write, commit, rollback,
  unless,
}

-- The part of a log entry that its callers choose.
pub record AuthEvent : Type 0 where
  pub actor_type : AuthActorType
  pub action : AuthAction
  pub actor_id : Option ℕ
  pub phone : Option String
  pub ip : Option String
  pub user_agent : Option String
  pub meta : Dict Json

unfoldable pub log_entry : AuthEvent → ℕ → ℕ → AuthLog
log_entry e now id = record {
  id = id;
  actor_type = e.actor_type;
  actor_id = e.actor_id;
  phone = e.phone;
  action = e.action;
  ip = e.ip;
  user_agent = e.user_agent;
  meta = e.meta;
  created_at = now;
}

unfoldable pub log_auth_event : AuthEvent → ℕ → Service (Unit {0})
unfolding log_entry
log_auth_event e now =
    write (λ db. record db { auth_logs = add_row (log_entry e now) db.auth_logs })

pub record Caller : Type 0 where
  pub ip : Option String
  pub user_agent : Option String

unfoldable pub active_user : String → Database → Option User
active_user phone db = first (λ u. str_eq u.phone phone && not u.is_deleted) db.users.rows

-- A registration wants a free phone, everything else an account.
unfoldable pub check_account : String → Option User → Service (Unit {0})
check_account purpose found =
    if lower_is purpose "register"
    then unless (not (is_some found)) (conflict_error "Bu telefon raqamda foydalanuvchu mavjud.")
    else unless (is_some found)
        (not_found_error "Bu raqam orqali foydalanuvchi yo'q, iltimos akkaunt yaratishni bosing.")

otp_meta : String → ℕ → Dict Json
otp_meta purpose otp_id = ("purpose", str purpose) ∷ ("otp_id", num (pos otp_id)) ∷ []

-- What comes before the commit.
unfoldable pub prepare_client_otp :
    OtpService
    → (String → String → Bool)
    → ℕ
    → String
    → String
    → String
    → Caller
    → Service (Unit {0})
unfolding active_user check_account log_auth_event otp_meta
prepare_client_otp o sms now random_code raw_phone purpose by = do
  phone ← lift (normalize_uzbek_phone raw_phone)
  found ← query (active_user phone)
  check_account purpose found
  otp ←
      request_otp o sms now random_code
        (record { phone = phone; purpose = purpose; ip = by.ip; user_agent = by.user_agent })
  log_auth_event
      (record {
        actor_type = client;
        action = otp_request;
        actor_id = none;
        phone = some phone;
        ip = by.ip;
        user_agent = by.user_agent;
        meta = otp_meta purpose otp.id;
      })
      now

unfoldable pub request_client_otp :
    OtpService
    → (String → String → Bool)
    → ℕ
    → String
    → String
    → String
    → Caller
    → Service (Unit {0})
unfolding prepare_client_otp
request_client_otp o sms now random_code raw_phone purpose by = do
  prepare_client_otp o sms now random_code raw_phone purpose by
  commit

pub record Verification : Type 0 where
  pub phone : String
  pub code : String
  pub purpose : String
  pub name : Option String
  pub waiter_referral_code : Option String
  pub date_of_birth : Option ℕ

abbrev pub is_waiter : StaffRole → Bool
is_waiter manager = false
is_waiter waiter = true

unfoldable pub referred_waiter : String → Database → Option Staff
referred_waiter code db =
    first (λ w. holds_text w.referral_code code && is_waiter w.role) db.staff.rows

unfoldable pub find_waiter : Option String → Service (Option Staff)
unfolding referred_waiter
find_waiter none = pure none
find_waiter (some code) = if str_eq code "" then pure none else (do
  found ← query (referred_waiter code)
  w ← lift (or_raise found (not_found_error "Invalid waiter referral code"))
  pure (some w))

-- `if name and user.name != name: user.name = name`, and so on.
abbrev with_name : Option String → User → User
with_name none u = u
with_name (some n) u = if str_eq n "" || holds_text u.name n then u else record u { name = some n }

abbrev with_birth : Option ℕ → User → User
with_birth none u = u
with_birth (some d) u = record u { date_of_birth = some d }

-- An id of 0 counts as none.
abbrev has_waiter : Option ℕ → Bool
has_waiter none = false
has_waiter (some id) = not (id == 0)

abbrev with_waiter : Option Staff → User → User
with_waiter none u = u
with_waiter (some w) u = if has_waiter u.waiter_id then u else record u { waiter_id = some w.id }

unfoldable pub update_user_profile : Option String → Option ℕ → Option Staff → User → User
update_user_profile name date_of_birth w u =
    with_waiter w (with_birth date_of_birth (with_name name u))

abbrev restored : User → User
restored u = if u.is_deleted then record u { is_deleted = false; deleted_at = none } else u

abbrev waiter_id_of : Option Staff → Option ℕ
waiter_id_of none = none
waiter_id_of (some w) = some w.id

-- A new row, with the defaults of app/models/user.py.
unfoldable pub new_user : String → Option String → Option ℕ → Option ℕ → ℕ → User
new_user phone name date_of_birth waiter_id id = record {
  id = id;
  name = name;
  surname = none;
  middle_name = none;
  phone = phone;
  waiter_id = waiter_id;
  date_of_birth = date_of_birth;
  profile_photo_url = none;
  level = silver;
  iiko_wallet_id = none;
  iiko_customer_id = none;
  pending_iiko_profile_update = none;
  email = none;
  gender = none;
  is_deleted = false;
  deleted_at = none;
  giftget = false;
}

unfoldable pub user_by_phone : String → Database → Option User
user_by_phone phone db = first (λ u. str_eq u.phone phone) db.users.rows

unfoldable pub put_user : User → Database → Database
put_user u db = record db {
  users = record db.users { rows = update_rows (λ v. v.id == u.id) (λ v. u) db.users.rows };
}

unfoldable pub existing_user : Verification → Option Staff → User → Service User
unfolding update_user_profile put_user
existing_user v w u = do
  let u' = update_user_profile v.name v.date_of_birth w (restored u)
  write (put_user u')
  pure u'

unfoldable pub register_user : Verification → String → Option Staff → Service User
unfolding new_user update_user_profile
register_user v phone w = do
  unless (lower_is v.purpose "register") (
      not_found_error "Bu raqam orqali foydalanuvchi topilmadi, iltimos akkaunt yaratishni bosing.")
  id ← query (λ db. db.users.next_id)
  let make : ℕ → User = (λ id.
      update_user_profile v.name v.date_of_birth w
        (new_user phone v.name v.date_of_birth (waiter_id_of w) id))
  write (λ db. record db { users = add_row make db.users })
  pure (make id)

abbrev account : Verification → String → Option Staff → Option User → Service User
account v phone w (some u) = existing_user v w u
account v phone w none = register_user v phone w

-- The account, its tokens and the log entry, behind the checks of code and referral.
unfoldable pub enter_account :
    (x : Security)
    → OtpService
    → ℕ
    → Verification
    → Caller
    → String
    → ℕ
    → Option Staff
    → Service (User × Tokens x)
unfolding user_by_phone existing_user register_user log_auth_event otp_meta
enter_account x o now v by phone otp_id w = do
  found ← query (user_by_phone phone)
  user ← account v phone w found
  log_auth_event
      (record {
        actor_type = client;
        action = otp_verification;
        actor_id = some user.id;
        phone = some phone;
        ip = by.ip;
        user_agent = by.user_agent;
        meta = otp_meta v.purpose otp_id;
      })
      now
  pure (user, issue_tokens x o.settings now client user.id [])

-- What comes before the commit.
unfoldable pub prepare_login :
    (x : Security) → OtpService → ℕ → Verification → Caller → Service (User × Tokens x)
unfolding find_waiter enter_account
prepare_login x o now v by = do
  phone ← lift (normalize_uzbek_phone v.phone)
  otp ← verify_otp o now phone v.code v.purpose
  w ← find_waiter v.waiter_referral_code
  enter_account x o now v by phone otp.id w

unfoldable pub verify_client_otp :
    (x : Security) → OtpService → ℕ → Verification → Caller → Service (User × Tokens x)
unfolding prepare_login
verify_client_otp x o now v by = do result ← prepare_login x o now v by; commit; pure result
