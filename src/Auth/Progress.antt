-- ===== src/Auth/Progress.antt =====
-- When `verify_client_otp` of app/services/auth_service.py succeeds.
use text.Mathlib.Text.{◌==◌ as str_eq}
use text.Mathlib.TextEquality.{eq_iff}
use sardoba_app_server.Prelude.{
  ℕ, ◌≤◌, ◌≡◌, refl, String, true, false, Option, none, some, [], arith, inl, inr, ◌⊎◌, ltb, ◌<◌,
  ◌↔◌, All, Mem,
}
use sardoba_app_server.Prelude.Newest.{newest-found}
use sardoba_app_server.Text.{lower_is}
use sardoba_app_server.Failure.{ok}
use sardoba_app_server.Phone.{normalize_uzbek_phone}
use sardoba_app_server.Models.{User, Staff, Database, client, OtpCode}
use sardoba_app_server.Service.{Session, request}
use sardoba_app_server.Otp.{
  OtpService, verify_otp, verify_found, redeem, mark_used, find_code, used, matches, latest_first,
}
use sardoba_app_server.Tokens.{Security, issue_tokens}
use sardoba_app_server.Auth.Register.{fixed, IsAccount, verify_client_otp_sound}
use sardoba_app_server.Auth.{
  Caller, Verification, find_waiter, user_by_phone, existing_user, register_user, account,
  referred_waiter, new_user, update_user_profile, waiter_id_of, prepare_login, enter_account,
  verify_client_otp, log_auth_event,
}

verify_otp_accepts :
    (o : OtpService) (now : ℕ) (phone code purpose : String) (c : OtpCode) (s : Session)
    → normalize_uzbek_phone phone ≡ ok phone
    → find_code phone code purpose s.work ≡ some c
    → now ≤ c.expires_at
    → verify_otp o now phone code purpose s
      ≡ (ok (used c), record s { work = mark_used phone code purpose c.id s.work })
unfolding verify_otp verify_found redeem
verify_otp_accepts o now phone code purpose c s n f t =
    let in_time : ltb c.expires_at now ≡ false = ground arith in rw n (rw f (rw in_time refl))

-- A stored code that the request names and that nobody has used.
pub record Fits (phone code purpose : String) (c : OtpCode) : Type 0 where
  pub phone_eq : c.phone ≡ phone
  pub code_eq : c.code ≡ code
  pub purpose_eq : c.purpose ≡ purpose
  pub unused : c.is_used ≡ false

-- The code does not fit, is older than the given code, or has not run out.
abbrev pub IsOlderOrInTime : String → String → String → ℕ → OtpCode → OtpCode → Type 0
IsOlderOrInTime phone code purpose now c d =
    (¬ Fits phone code purpose d) ⊎ ((d.created_at < c.created_at) ⊎ (now ≤ d.expires_at))

matches-Fits :
    (phone code purpose : String) (c : OtpCode)
    → (matches phone code purpose c ≡ true) ↔ Fits phone code purpose c
unfolding matches
matches-Fits phone code purpose c = (
  λ h. record {
    phone_eq = (eq_iff c.phone phone).0 (ground arith);
    code_eq = (eq_iff c.code code).0 (ground arith);
    purpose_eq = (eq_iff c.purpose purpose).0 (ground arith);
    unused = ground arith;
  },
  λ f.
      rw
        (
          (eq_iff c.phone phone).1 f.phone_eq,
          (eq_iff c.code code).1 f.code_eq,
          (eq_iff c.purpose purpose).1 f.purpose_eq,
          f.unused,
        )
        refl,
)

find_code_in_time :
    (now : ℕ) (phone code purpose : String) (c : OtpCode) (db : Database)
    → Mem c db.otp_codes.rows
    → Fits phone code purpose c
    → All (IsOlderOrInTime phone code purpose now c) db.otp_codes.rows
    → (d : OtpCode) × (find_code phone code purpose db ≡ some d) × (now ≤ d.expires_at)
unfolding find_code latest_first
find_code_in_time now phone code purpose c db m f hs =
    let fits = matches-Fits phone code purpose in
    let (d, e, fit, other, newer) =
      newest-found (λ x. x.created_at) (matches phone code purpose)
        (IsOlderOrInTime phone code purpose now c) db.otp_codes.rows c m ((fits c).1 f) hs in
    elim other [
      | inl unfit ↦ absurd (unfit ((fits d).0 fit))
      | inr (inl older) ↦ absurd (omega arith)
      | inr (inr in_time) ↦ (d, e, in_time)
    ]

-- Nobody is referred, or a waiter with the code exists.
abbrev pub IsReferral : Option String → Database → Option Staff → Type 0
IsReferral none db w = w ≡ none
IsReferral (some code) db w =
    (str_eq code "" ≡ false)
    × (found : Staff) × (w ≡ some found)
    × (referred_waiter code db ≡ some found)

mark_used-IsReferral :
    (referral : Option String) (db : Database) (w : Option Staff) (phone code purpose : String)
    (id : ℕ)
    → IsReferral referral db w
    → IsReferral referral (mark_used phone code purpose id db) w
unfolding referred_waiter mark_used
mark_used-IsReferral none db w phone code purpose id h = h
mark_used-IsReferral (some r) db w phone code purpose id h = h

find_waiter_accepts :
    (code : Option String) (w : Option Staff) (s : Session)
    → IsReferral code s.work w
    → find_waiter code s ≡ (ok w, s)
unfolding find_waiter
find_waiter_accepts none w s h = rw h refl
find_waiter_accepts (some code) w s (given, found, same, here) = rw same (rw given (rw here refl))

-- The account exists, or the purpose is to make one.
abbrev pub MayEnter : Verification → Option User → Type 0
MayEnter v found = (lower_is v.purpose "register" ≡ true) ⊎ ((u : User) × (found ≡ some u))

account_accepts :
    (v : Verification) (phone : String) (w : Option Staff) (found : Option User) (s : Session)
    → MayEnter v found
    → (u : User) × ((account v phone w found s).0 ≡ ok u)
unfolding existing_user register_user
account_accepts v phone w (some u) s h = (_, refl)
account_accepts v phone w none s (inl r) =
    let id = s.work.users.next_id in
    let u = new_user phone v.name v.date_of_birth (waiter_id_of w) id in
    (update_user_profile v.name v.date_of_birth w u, rw r refl)
account_accepts v phone w none s (inr (u, e)) = cc

enter_account_accepts :
    (x : Security) (o : OtpService) (now : ℕ) (v : Verification) (by : Caller) (phone : String)
    (otp_id : ℕ) (w : Option Staff) (s : Session)
    → MayEnter v (user_by_phone phone s.work)
    → (u : User) × ((enter_account x o now v by phone otp_id w s).0
        ≡ ok (u, issue_tokens x o.settings now client u.id []))
unfolding enter_account log_auth_event
enter_account_accepts x o now v by phone otp_id w s h =
    let (u, e) = account_accepts v phone w (user_by_phone phone s.work) s h in (u, rw e refl)

accepts_found :
    (x : Security) (o : OtpService) (now : ℕ) (v : Verification) (by : Caller) (phone : String)
    (db : Database) (c : OtpCode) (w : Option Staff)
    → normalize_uzbek_phone v.phone ≡ ok phone
    → find_code phone v.code v.purpose db ≡ some c
    → now ≤ c.expires_at
    → IsReferral v.waiter_referral_code db w
    → MayEnter v (user_by_phone phone db)
    → (u : User) × ((request (verify_client_otp x o now v by) db).0
        ≡ ok (u, issue_tokens x o.settings now client u.id []))
unfolding verify_client_otp prepare_login mark_used user_by_phone referred_waiter
accepts_found x o now v by phone db c w n f t r h =
    let s : Session = record { work = db; saved = db } in
    let s₁ : Session = record s { work = mark_used phone v.code v.purpose c.id db } in
    let verified =
      verify_otp_accepts o now phone v.code v.purpose c s (fixed phone v.phone n) f t in
    let referred =
      find_waiter_accepts v.waiter_referral_code w s₁
        (mark_used-IsReferral v.waiter_referral_code db w phone v.code v.purpose c.id r) in
    let (u, e) = enter_account_accepts x o now v by phone c.id w s₁ h in
    (u, rw n (rw verified (rw referred (rw e refl))))

-- A verification succeeds where the phone has a normal form, a stored unused code of that phone fits and has
-- not run out, every code that fits and has run out is older, the referral code is missing or some
-- waiter's, and there is an account of the phone or the purpose is `register`. It returns that account, by
-- its id, or a new one with the next id, and the tokens of that id. An account that is marked as deleted
-- counts too, for every purpose: it is returned as active again.
pub verify_client_otp_accepts :
    (x : Security) (o : OtpService) (now : ℕ) (v : Verification) (by : Caller) (phone : String)
    (db : Database) (c : OtpCode) (w : Option Staff)
    → normalize_uzbek_phone v.phone ≡ ok phone
    → Mem c db.otp_codes.rows
    → Fits phone v.code v.purpose c
    → All (IsOlderOrInTime phone v.code v.purpose now c) db.otp_codes.rows
    → IsReferral v.waiter_referral_code db w
    → MayEnter v (user_by_phone phone db)
    → (u : User) × ((request (verify_client_otp x o now v by) db).0
        ≡ ok (u, issue_tokens x o.settings now client u.id []))
      × IsAccount v phone (user_by_phone phone db) db.users.next_id u
verify_client_otp_accepts x o now v by phone db c w n m f hs r h =
    let (d, e, in_time) = find_code_in_time now phone v.code v.purpose c db m f hs in
    let (u, returned) = accepts_found x o now v by phone db d w n e in_time r h in
    let login = verify_client_otp_sound x o now v by phone db u _ n returned in
    (u, returned, login.entered)
