-- ===== src/Auth/StaffAccess.antt =====
-- Staff accounts: `staff_login`, `_ensure_login_rate_limit`, `change_staff_password`, `create_staff` and
-- `_generate_referral_code` of app/services/auth_service.py.
pub mod Lockout
pub mod Creation
mod Tests
use text.Mathlib.Text.{◌==◌ as str_eq}
use sardoba_app_server.Prelude.{
  ℕ, ◌+◌, String, Bool, true, false, not, ◌&&◌, ◌||◌, Option, none, some, List, [], ◌∷◌, ltb, leb,
  ◌==◌, if◌then◌else◌, first, count, update_rows,
}
use sardoba_app_server.Json.{Json, str}
use sardoba_app_server.Text.{strip}
use sardoba_app_server.Failure.{
  or_raise, Failure, Outcome, ok, raised, rate_limit_exceeded, authentication_error,
  authorization_error, conflict_error, service_error, integrity_error,
}
use sardoba_app_server.Settings.{Settings}
use sardoba_app_server.Models.{
  Staff, StaffRole, manager, waiter, AuthLog, client, staff, AuthAction, login, failed_login,
  Database, add_row,
}
use sardoba_app_server.SyncJobs.{holds_text}
use sardoba_app_server.Otp.{minutes}
use sardoba_app_server.Tokens.{Security, Tokens, issue_tokens}
use sardoba_app_server.Cashback.{is_manager}
use sardoba_app_server.Auth.{AuthEvent, Caller, log_auth_event}
use sardoba_app_server.Service.{
  Session, Service, continue, ◌>>=◌, ◌>>◌, pure, raise, lift, query, write, commit, rollback,
  unless,
}

abbrev is_failed_login : AuthAction → Bool
is_failed_login failed_login = true
is_failed_login _ = false

unfoldable pub recent_failure : Settings → ℕ → String → AuthLog → Bool
recent_failure c now ip l =
    holds_text l.ip ip
    && (is_failed_login l.action && leb now (l.created_at + minutes c.rate_limit_block_minutes))

unfoldable pub failures : Settings → ℕ → String → Database → ℕ
unfolding recent_failure
failures c now ip db = count (recent_failure c now ip) db.auth_logs.rows

unfoldable pub login_allowed : Settings → ℕ → String → Database → Bool
unfolding failures
login_allowed c now ip db =
    failures c now ip db == 0 || ltb (failures c now ip db) c.login_rate_limit_per_window

unfoldable pub ensure_login_rate_limit : Settings → ℕ → Option String → Service (Unit {0})
unfolding login_allowed
ensure_login_rate_limit c now none = pure tt
ensure_login_rate_limit c now (some ip) =
    if str_eq ip "" || c.login_rate_limit_per_window == 0
    then pure tt
    else (do allowed ← query (login_allowed c now ip); unless allowed rate_limit_exceeded)

abbrev pub role_text : StaffRole → String
role_text manager = "MANAGER"
role_text waiter = "WAITER"

unfoldable pub login_event : AuthAction → Option ℕ → String → Caller → AuthEvent
login_event action actor_id phone by = record {
  actor_type = staff;
  action = action;
  actor_id = actor_id;
  phone = some phone;
  ip = by.ip;
  user_agent = by.user_agent;
  meta = [];
}

unfoldable pub with_password : Security → String → Option Staff → Option Staff
with_password x password none = none
with_password x password (some w) = if x.verify password w.password_hash then some w else none

unfoldable pub staff_by_phone : String → Database → Option Staff
staff_by_phone phone db = first (λ w. str_eq w.phone phone) db.staff.rows

-- A failed login is logged and committed before the error.
unfoldable pub finish_login :
    (x : Security) → Settings → ℕ → String → Caller → Option Staff → Service (Staff × Tokens x)
unfolding login_event log_auth_event
finish_login x c now phone by none = do
  log_auth_event (login_event failed_login none phone by) now
  commit
  raise (authentication_error "Invalid credentials")
finish_login x c now phone by (some w) = do
  log_auth_event (login_event login (some w.id) phone by) now
  commit
  pure (w, issue_tokens x c now staff w.id (("role", str (role_text w.role)) ∷ []))

unfoldable pub staff_login :
    (x : Security) → Settings → ℕ → String → String → Caller → Service (Staff × Tokens x)
unfolding ensure_login_rate_limit staff_by_phone with_password finish_login
staff_login x c now phone password by = do
  ensure_login_rate_limit c now by.ip
  found ← query (staff_by_phone (strip phone))
  finish_login x c now phone by (with_password x password found)

unfoldable pub set_password : ℕ → String → Database → Database
set_password id hashed db = record db {
  staff = record db.staff {
    rows = update_rows (λ w. w.id == id) (λ w. record w { password_hash = hashed }) db.staff.rows;
  };
}

unfoldable pub change_staff_password :
    Security → String → Staff → String → String → Service (Unit {0})
unfolding set_password
change_staff_password x salt w old_password new_password = do
  unless (x.verify old_password w.password_hash) (authentication_error "Old password is incorrect")
  write (set_password w.id (x.hash salt new_password))
  commit

unfoldable pub has_referral : String → Database → Bool
has_referral code db = not (count (λ w. holds_text w.referral_code code) db.staff.rows == 0)

unfoldable pub has_phone : String → Database → Bool
has_phone phone db = not (count (λ w. str_eq w.phone phone) db.staff.rows == 0)

-- The tries at a random code: ten in the source.
unfoldable pub generate_referral_code : List String → Service String
unfolding has_referral
generate_referral_code [] = raise (service_error "Failed to generate unique referral code")
generate_referral_code (code ∷ codes) = do
  exists ← query (has_referral code)
  (if exists then generate_referral_code codes else pure code)

pub record NewStaff : Type 0 where
  pub name : String
  pub phone : String
  pub password : String
  pub role : StaffRole
  pub branch_id : Option ℕ
  pub referral_code : Option String

abbrev stripped : Option String → String
stripped none = ""
stripped (some s) = strip s

unfoldable pub choose_referral : List String → NewStaff → Service (Option String)
unfolding has_referral generate_referral_code
choose_referral codes n =
    if is_manager n.role
    then pure none
    else (if str_eq (stripped n.referral_code) ""
        then (do code ← generate_referral_code codes; pure (some code))
        else (do
          exists ← query (has_referral (stripped n.referral_code))
          unless (not exists) (conflict_error "Waiter with this referral code already exists")
          pure (some (stripped n.referral_code))))

unfoldable pub staff_row : Security → String → NewStaff → Option String → ℕ → Staff
staff_row x salt n referral id = record {
  id = id;
  name = n.name;
  phone = n.phone;
  password_hash = x.hash salt n.password;
  role = n.role;
  branch_id = n.branch_id;
  referral_code = referral;
}

-- The phone is unique: the commit of a second one fails and is rolled back.
unfoldable pub insert_staff : (ℕ → Staff) → Bool → Service (Unit {0})
insert_staff make true = do rollback; raise (conflict_error "Staff with this phone already exists")
insert_staff make false = do write (λ db. record db { staff = add_row make db.staff }); commit

unfoldable pub add_staff : Security → String → NewStaff → Option String → Service Staff
unfolding has_phone staff_row insert_staff
add_staff x salt n referral = do
  taken ← query (has_phone n.phone)
  id ← query (λ db. db.staff.next_id)
  insert_staff (staff_row x salt n referral) taken
  pure (staff_row x salt n referral id)

unfoldable pub create_staff : Security → List String → String → NewStaff → Staff → Service Staff
unfolding choose_referral add_staff
create_staff x codes salt n actor = do
  unless (is_manager actor.role) authorization_error
  referral ← choose_referral codes n
  add_staff x salt n referral
