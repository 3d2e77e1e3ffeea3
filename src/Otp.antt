-- ===== src/Otp.antt =====
-- app/services/otp_service.py. The time, the random code of `secrets` and the answer of the SMS
-- provider are arguments.
pub mod Checks
pub mod Limits
pub mod SingleUse
pub mod Commits
mod Tests
use text.Mathlib.Text.{◌==◌ as str_eq}
use sardoba_app_server.Prelude.{
  ℕ, ◌+◌, ◌*◌, ◌<◌, String, Bool, true, false, not, ◌&&◌, ◌||◌, Option, none, some, List, [], ◌∷◌,
  ltb, leb, ◌==◌, if◌then◌else◌, first, count, update_rows, order_by,
}
use sardoba_app_server.Failure.{
  Failure, Outcome, ok, raised, ◌>>=◌ as and_then, rate_limit_exceeded, otp_expired, otp_invalid,
  otp_delivery_failed,
}
use sardoba_app_server.Text.{lower_is}
use sardoba_app_server.Phone.{normalize_uzbek_phone}
use sardoba_app_server.Settings.{Settings}
use sardoba_app_server.SyncJobs.{seconds, holds_text}
use sardoba_app_server.Models.{OtpCode, Table, Database, add_row}
use sardoba_app_server.Service.{
  Session, Service, ◌>>=◌, ◌>>◌, pure, raise, lift, query, write, unless,
}

abbrev pub minutes : ℕ → ℕ
minutes n = seconds (n * 60)

-- The attributes that `OTPService.__init__` sets.
pub record OtpService : Type 0 where
  pub settings : Settings
  pub rate_limit_bypass : List String
  pub verify_bypass : List String
  pub demo_phone : Option String
  pub demo_code : String

normalize_all : List String → Outcome (List String)
normalize_all [] = ok []
normalize_all (p ∷ ps) =
    and_then (normalize_uzbek_phone p) (λ q. and_then (normalize_all ps) (λ qs. ok (q ∷ qs)))

normalize_demo : Option String → Outcome (Option String)
normalize_demo none = ok none
normalize_demo (some p) =
    if str_eq p "" then ok none else and_then (normalize_uzbek_phone p) (λ q. ok (some q))

unfoldable pub otp_service : Settings → Outcome OtpService
unfolding normalize_all normalize_demo
otp_service c = and_then (normalize_all c.otp_rate_limit_bypass_phones) λ bypass.
    and_then (normalize_all c.otp_bypass_verify_phones) λ verify.
      and_then (normalize_demo c.demo_phone) λ demo. ok (record {
        settings = c;
        rate_limit_bypass = bypass;
        verify_bypass = verify;
        demo_phone = demo;
        demo_code = if str_eq c.otp_demo_code "" then "1111" else c.otp_demo_code;
      })

unfoldable pub is_among : String → List String → Bool
is_among p [] = false
is_among p (q ∷ qs) = str_eq q p || is_among p qs

abbrev pub truthy : Option String → Bool
truthy none = false
truthy (some s) = not (str_eq s "")

unfoldable pub generate_code : OtpService → String → String
generate_code o random_code = elim o.settings.otp_static_code [
  | none ↦ random_code
  | some code ↦ if str_eq code "" then random_code else code
]

-- created_at >= now - window
unfoldable pub is_recent : OtpService → ℕ → OtpCode → Bool
is_recent o now c = leb now (c.created_at + minutes o.settings.rate_limit_block_minutes)

unfoldable pub recent_for_phone : OtpService → ℕ → String → OtpCode → Bool
unfolding is_recent
recent_for_phone o now phone c = str_eq c.phone phone && is_recent o now c

unfoldable pub recent_for_ip : OtpService → ℕ → String → OtpCode → Bool
unfolding is_recent
recent_for_ip o now ip c = holds_text c.ip ip && is_recent o now c

-- `count and count >= limit`, negated.
abbrev under_limit : ℕ → ℕ → Bool
under_limit n limit = n == 0 || ltb n limit

unfoldable pub phone_allowed : OtpService → ℕ → String → Database → Bool
unfolding recent_for_phone
phone_allowed o now phone db =
    under_limit (count (recent_for_phone o now phone) db.otp_codes.rows)
      o.settings.otp_rate_limit_per_hour

unfoldable pub ip_allowed : OtpService → ℕ → Option String → Database → Bool
unfolding recent_for_ip
ip_allowed o now none db = true
ip_allowed o now (some ip) db =
    str_eq ip ""
    || under_limit (count (recent_for_ip o now ip) db.otp_codes.rows)
        o.settings.otp_rate_limit_per_hour

unfoldable pub is_demo : OtpService → String → Bool
is_demo o phone = holds_text o.demo_phone phone

unfoldable pub enforces_limit : OtpService → String → String → Bool
unfolding is_demo is_among
enforces_limit o phone purpose =
    not (is_among phone o.rate_limit_bypass || (is_demo o phone || is_among phone o.verify_bypass))
    && not (lower_is purpose "register")

-- The two queries are made one after the other, and the second only for a given ip.
unfoldable pub check_limits : OtpService → ℕ → String → String → Option String → Service (Unit {0})
unfolding enforces_limit phone_allowed ip_allowed
check_limits o now phone purpose ip =
    if enforces_limit o phone purpose
    then (do
      by_phone ← query (phone_allowed o now phone)
      unless by_phone rate_limit_exceeded
      by_ip ← query (ip_allowed o now ip)
      unless by_ip rate_limit_exceeded)
    else pure tt

unfoldable pub new_code :
    OtpService → ℕ → String → String → String → Option String → Option String → ℕ → OtpCode
new_code o now phone code purpose ip user_agent id = record {
  id = id;
  phone = phone;
  code = code;
  purpose = purpose;
  expires_at = now + minutes o.settings.otp_expiration_minutes;
  is_used = false;
  created_at = now;
  ip = ip;
  user_agent = user_agent;
}

abbrev pub add_code : (ℕ → OtpCode) → Database → Database
add_code make db = record db { otp_codes = add_row make db.otp_codes }

-- `sms phone message` says whether the provider accepts the message; the provider exists unless
-- messages are only logged.
unfoldable pub send_otp :
    OtpService → (String → String → Bool) → String → String → Service (Unit {0})
send_otp o sms phone code =
    if o.settings.sms_dry_run
    then pure tt
    else unless (sms phone (o.settings.fill_sms_template code)) otp_delivery_failed

-- The demo code is stored beside the real one.
unfoldable pub add_demo_code :
    OtpService → ℕ → String → String → Option String → Option String → Service (Unit {0})
unfolding new_code is_demo is_among
add_demo_code o now phone purpose ip user_agent =
    if is_demo o phone || is_among phone o.verify_bypass
    then write (add_code (new_code o now phone o.demo_code purpose ip user_agent))
    else pure tt

pub record OtpRequest : Type 0 where
  pub phone : String
  pub purpose : String
  pub ip : Option String
  pub user_agent : Option String

-- The rest of a request, behind the limits.
unfoldable pub issue_otp :
    OtpService → (String → String → Bool) → ℕ → String → OtpRequest → String → Service OtpCode
unfolding generate_code new_code add_demo_code send_otp
issue_otp o sms now random_code r phone = do
  let code = generate_code o random_code
  id ← query (λ db. db.otp_codes.next_id)
  write (add_code (new_code o now phone code r.purpose r.ip r.user_agent))
  add_demo_code o now phone r.purpose r.ip r.user_agent
  send_otp o sms phone code
  pure (new_code o now phone code r.purpose r.ip r.user_agent id)

unfoldable pub request_otp :
    OtpService → (String → String → Bool) → ℕ → String → OtpRequest → Service OtpCode
unfolding check_limits issue_otp
request_otp o sms now random_code r = do
  phone ← lift (normalize_uzbek_phone r.phone)
  check_limits o now phone r.purpose r.ip
  issue_otp o sms now random_code r phone

-- The filters of `verify_otp`.
unfoldable pub matches : String → String → String → OtpCode → Bool
matches phone code purpose c =
    str_eq c.phone phone && (str_eq c.code code && (str_eq c.purpose purpose && not c.is_used))

unfoldable pub latest_first : OtpCode → OtpCode → Bool
latest_first a b = ltb b.created_at a.created_at

unfoldable pub find_code : String → String → String → Database → Option OtpCode
unfolding matches latest_first
find_code phone code purpose db =
    first (matches phone code purpose) (order_by latest_first db.otp_codes.rows)

abbrev pub used : OtpCode → OtpCode
used c = record c { is_used = true }

-- The row that the query found: it has that id, and it passed the filters.
unfoldable pub is_found : String → String → String → ℕ → OtpCode → Bool
unfolding matches
is_found phone code purpose id c = c.id == id && matches phone code purpose c

unfoldable pub mark_used : String → String → String → ℕ → Database → Database
unfolding is_found
mark_used phone code purpose id db = record db {
  otp_codes = record db.otp_codes {
    rows = update_rows (is_found phone code purpose id) used db.otp_codes.rows;
  };
}

-- The checks on a code that was found; it is used up in either case.
unfoldable pub redeem : ℕ → String → String → String → OtpCode → Service OtpCode
unfolding mark_used
redeem now phone code purpose c = do
  write (mark_used phone code purpose c.id)
  unless (not (ltb c.expires_at now)) otp_expired
  pure (used c)

-- A bypass phone may verify with the demo code alone: the row is made on the spot.
unfoldable pub verify_missing : OtpService → ℕ → String → String → String → Service OtpCode
unfolding is_among new_code redeem
verify_missing o now phone code purpose =
    if is_among phone o.verify_bypass && str_eq code o.demo_code
    then (do
      id ← query (λ db. db.otp_codes.next_id)
      write (add_code (new_code o now phone code purpose none none))
      redeem now phone code purpose (new_code o now phone code purpose none none id))
    else raise otp_invalid

unfoldable pub verify_found :
    OtpService → ℕ → String → String → String → Option OtpCode → Service OtpCode
unfolding verify_missing redeem
verify_found o now phone code purpose none = verify_missing o now phone code purpose
verify_found o now phone code purpose (some c) = redeem now phone code purpose c

unfoldable pub verify_otp : OtpService → ℕ → String → String → String → Service OtpCode
unfolding find_code verify_found
verify_otp o now raw_phone code purpose = do
  phone ← lift (normalize_uzbek_phone raw_phone)
  found ← query (find_code phone code purpose)
  verify_found o now phone code purpose found
