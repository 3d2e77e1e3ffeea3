-- ===== src/Auth/StaffAccess/Lockout.antt =====
-- Staff logins of app/services/auth_service.py: who gets in, and the limit on failures.
use text.Mathlib.Text.{◌==◌ as str_eq}
use text.Mathlib.TextEquality.{eq_iff}
use text.Mathlib.TextPositions.{eq_refl}
use sardoba_app_server.Prelude.{
  subst, ℕ, ◌+◌, ◌≤◌, ◌<◌, ◌≡◌, refl, String, true, false, Option, none, some, [], ◌∷◌, arith, inl,
  inr, Bool-cases, first-holds, if◌then◌else◌, count,
}
use sardoba_app_server.Prelude.Selection.{count-append}
use sardoba_app_server.Json.{str}
use sardoba_app_server.Text.{strip}
use sardoba_app_server.Failure.{Outcome, ok, raised, rate_limit_exceeded, authentication_error}
use sardoba_app_server.Settings.{Settings, IsSettings}
use sardoba_app_server.Models.{Staff, Database, staff, login, failed_login}
use sardoba_app_server.Service.{Session}
use sardoba_app_server.Service.Keeps.{bind_ok}
use sardoba_app_server.Tokens.{Security, Tokens, issue_tokens}
use sardoba_app_server.Auth.{Caller, log_auth_event, log_entry}
use sardoba_app_server.Auth.StaffAccess.{
  failures, recent_failure, login_allowed, ensure_login_rate_limit, role_text, login_event,
  with_password, staff_by_phone, finish_login, staff_login,
}

blocked :
    (c : Settings) (now : ℕ) (ip : String) (db : Database)
    → 1 ≤ c.login_rate_limit_per_window
    → c.login_rate_limit_per_window ≤ failures c now ip db
    → login_allowed c now ip db ≡ false
unfolding login_allowed
blocked c now ip db h full = ground arith

allowed :
    (c : Settings) (now : ℕ) (ip : String) (db : Database)
    → failures c now ip db < c.login_rate_limit_per_window
    → login_allowed c now ip db ≡ true
unfolding login_allowed
allowed c now ip db under = ground arith

limit_read :
    (c : Settings) (now : ℕ) (ip : String) (s : Session)
    → 1 ≤ c.login_rate_limit_per_window
    → str_eq ip "" ≡ false
    → ensure_login_rate_limit c now (some ip) s
      ≡ (if login_allowed c now ip s.work then (ok tt, s) else (raised rate_limit_exceeded, s))
unfolding ensure_login_rate_limit
limit_read c now ip s h given = elim (Bool-cases (login_allowed c now ip s.work)) [
  | inl e ↦ ground arith
  | inr e ↦ ground arith
]

abbrev pub caller : String → Option String → Caller
caller ip user_agent = record { ip = some ip; user_agent = user_agent }

-- With as many failed logins from an address within the window as the limit allows, every login from that
-- address is refused, whatever the password, and writes nothing.
pub staff_login_over_limit :
    (x : Security) (c : Settings) (now : ℕ) (phone password : String) (ip : String)
    (user_agent : Option String) (s : Session)
    → IsSettings c
    → str_eq ip "" ≡ false
    → c.login_rate_limit_per_window ≤ failures c now ip s.work
    → staff_login x c now phone password (caller ip user_agent) s ≡ (raised rate_limit_exceeded, s)
unfolding staff_login
staff_login_over_limit x c now phone password ip user_agent s h given full =
    rw (limit_read c now ip s h.login_limit given, blocked c now ip s.work h.login_limit full) refl

-- The member of staff, and the right password.
pub record IsStaffLogin (x : Security) (c : Settings) (now : ℕ) (phone password : String)
    (db : Database) (w : Staff) (t : Tokens x) : Type 0 where
  pub found : staff_by_phone (strip phone) db ≡ some w
  pub phone_eq : w.phone ≡ strip phone
  pub verified : x.verify password w.password_hash ≡ true
  pub tokens : t ≡ issue_tokens x c now staff w.id (("role", str (role_text w.role)) ∷ [])

ensure-session :
    (c : Settings) (now : ℕ) (ip : Option String) (s : Session)
    → (ensure_login_rate_limit c now ip s).1 ≡ s
unfolding ensure_login_rate_limit
ensure-session c now none s = refl
ensure-session c now (some ip) s = ground arith

finish-IsStaffLogin :
    (x : Security) (c : Settings) (now : ℕ) (phone password : String) (by : Caller)
    (found : Option Staff) (s : Session) (w : Staff) (t : Tokens x)
    → staff_by_phone (strip phone) s.work ≡ found
    → (finish_login x c now phone by (with_password x password found) s).0 ≡ ok (w, t)
    → IsStaffLogin x c now phone password s.work w t
unfolding finish_login with_password staff_by_phone log_auth_event
finish-IsStaffLogin x c now phone password by none s w t e h = cc
finish-IsStaffLogin x c now phone password by (some w₀) s w t e h =
    elim (Bool-cases (x.verify password w₀.password_hash)) [
      | inl v ↦
          let done : ok
                (w₀, issue_tokens x c now staff w₀.id (("role", str (role_text w₀.role)) ∷ []))
              ≡ ok (w, t) =
            rw v at h in
          let same : w₀ ≡ w = cc in
          let issued : t
              ≡ issue_tokens x c now staff w₀.id (("role", str (role_text w₀.role)) ∷ []) =
            cc in
          subst (λ z. IsStaffLogin x c now phone password s.work z t) same
            (record {
              found = e;
              phone_eq =
                  (eq_iff w₀.phone (strip phone)).0
                    (first-holds (λ w. str_eq w.phone (strip phone)) s.work.staff.rows e);
              verified = v;
              tokens = issued;
            })
      | inr v ↦ cc (rw v at h)
    ]

-- A login that succeeds returns the member of staff whose phone is the given one without surrounding space,
-- the password verifies against the stored hash, and the tokens are that member's, with the role.
pub staff_login_sound :
    (x : Security) (c : Settings) (now : ℕ) (phone password : String) (by : Caller) (s : Session)
    (w : Staff) (t : Tokens x)
    → (staff_login x c now phone password by s).0 ≡ ok (w, t)
    → IsStaffLogin x c now phone password s.work w t
unfolding staff_login
staff_login_sound x c now phone password by s w t h =
    let (r, allowed, rest) = bind_ok (ensure_login_rate_limit c now by.ip) _ s (w, t) h in
    let rest' = rw (ensure-session c now by.ip s) at rest in
    finish-IsStaffLogin x c now phone password by (staff_by_phone (strip phone) s.work) s w t refl
      rest'

counted :
    (c : Settings) (now : ℕ) (phone : String) (ip : String) (user_agent : Option String) (id : ℕ)
    → count
        (recent_failure c now ip)
        (log_entry (login_event failed_login none phone (caller ip user_agent)) now id ∷ [])
      ≡ 1
unfolding count recent_failure log_entry login_event
counted c now phone ip user_agent id = rw (eq_refl ip) (ground arith)

counted_login :
    (c : Settings) (now : ℕ) (actor : Option ℕ) (phone : String) (ip : String)
    (user_agent : Option String) (id : ℕ)
    → count
        (recent_failure c now ip)
        (log_entry (login_event login actor phone (caller ip user_agent)) now id ∷ [])
      ≡ 0
unfolding count recent_failure log_entry login_event
counted_login c now actor phone ip user_agent id = rw (eq_refl ip) (ground arith)

-- What a login comes to, once the limit is passed: `found` is the member of staff whose password it is.
abbrev pub IsAttempt :
    (x : Security)
    → Settings
    → ℕ
    → String
    → Session
    → Option Staff
    → Outcome (Staff × Tokens x) × Session
    → Type 0
IsAttempt x c now ip s none (r, s') =
    (r ≡ raised (authentication_error "Invalid credentials"))
    × (failures c now ip s'.saved ≡ failures c now ip s.work + 1)
IsAttempt x c now ip s (some w) (r, s') =
    (r ≡ ok (w, issue_tokens x c now staff w.id (("role", str (role_text w.role)) ∷ [])))
    × (failures c now ip s'.saved ≡ failures c now ip s.work)

finish-IsAttempt :
    (x : Security) (c : Settings) (now : ℕ) (phone : String) (ip : String)
    (user_agent : Option String) (found : Option Staff) (s : Session)
    → IsAttempt x c now ip s found (finish_login x c now phone (caller ip user_agent) found s)
unfolding finish_login log_auth_event failures
finish-IsAttempt x c now phone ip user_agent none s =
    let id = s.work.auth_logs.next_id in
    let entry = log_entry (login_event failed_login none phone (caller ip user_agent)) now id in
    (
      refl,
      omega (
        arith,
        count-append (recent_failure c now ip) s.work.auth_logs.rows (entry ∷ []),
        counted c now phone ip user_agent id,
      ),
    )
finish-IsAttempt x c now phone ip user_agent (some w) s =
    let id = s.work.auth_logs.next_id in
    let entry = log_entry (login_event login (some w.id) phone (caller ip user_agent)) now id in
    (
      refl,
      omega (
        arith,
        count-append (recent_failure c now ip) s.work.auth_logs.rows (entry ∷ []),
        counted_login c now (some w.id) phone ip user_agent id,
      ),
    )

-- A login from an address under the limit is decided by phone and password alone. With the phone of a
-- member of staff and a password that verifies it succeeds, with that member's tokens, and the address
-- has no more failures than before; with any other phone or password it is refused, and one failure more
-- of the address is committed.
pub staff_login-IsAttempt :
    (x : Security) (c : Settings) (now : ℕ) (phone password : String) (ip : String)
    (user_agent : Option String) (s : Session)
    → IsSettings c
    → str_eq ip "" ≡ false
    → failures c now ip s.work < c.login_rate_limit_per_window
    → IsAttempt x c now ip s
        (with_password x password (staff_by_phone (strip phone) s.work))
        (staff_login x c now phone password (caller ip user_agent) s)
unfolding staff_login
staff_login-IsAttempt x c now phone password ip user_agent s h given under =
    let found = with_password x password (staff_by_phone (strip phone) s.work) in
    rw (limit_read c now ip s h.login_limit given, allowed c now ip s.work under)
      (finish-IsAttempt x c now phone ip user_agent found s)
