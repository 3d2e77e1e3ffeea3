-- ===== src/Auth/Register.antt =====
-- What a successful `verify_client_otp` of app/services/auth_service.py rests on, and what it gives.
use text.Mathlib.Text.{◌==◌ as str_eq}
use text.Mathlib.TextEquality.{eq_iff}
use sardoba_app_server.Prelude.{
  ℕ, ◌≡◌, refl, String, true, false, Option, none, some, [], arith, inl, inr, Bool-cases,
  first-holds, ap, subst, ◌∙◌,
}
use sardoba_app_server.Text.{lower_is}
use sardoba_app_server.Failure.{ok}
use sardoba_app_server.Phone.{normalize_uzbek_phone}
use sardoba_app_server.Models.{User, Staff, Database, client, OtpCode}
use sardoba_app_server.Service.{Session, request}
use sardoba_app_server.Service.Keeps.{bind_ok}
use sardoba_app_server.Otp.{
  OtpService, verify_otp, verify_missing, verify_found, redeem, mark_used, find_code,
}
use sardoba_app_server.Otp.Checks.{IsRedeemed, HasGround, verify_otp_sound}
use sardoba_app_server.Phone.Format.{normalize-IsUzbekPhone, normalize_fixed}
use sardoba_app_server.Tokens.{Security, Tokens, issue_tokens}
use sardoba_app_server.Auth.{
  Caller, Verification, find_waiter, user_by_phone, update_user_profile, new_user, existing_user,
  register_user, account, restored, prepare_login, enter_account, verify_client_otp, waiter_id_of,
  log_auth_event,
}

-- The account that a login returns: the one that was found, by its id, or a new one with the next id.
pub record IsAccount (v : Verification) (phone : String) (found : Option User) (next_id : ℕ)
    (u : User) : Type 0 where
  pub phone_eq : u.phone ≡ phone
  pub active : u.is_deleted ≡ false
  pub known : (u₀ : User) → found ≡ some u₀ → u.id ≡ u₀.id
  pub made : found ≡ none → (lower_is v.purpose "register" ≡ true) × (u.id ≡ next_id)

profile-keeps :
    (name : Option String) (date_of_birth : Option ℕ) (w : Option Staff) (u : User)
    → let u' = update_user_profile name date_of_birth w u in
      (u'.phone ≡ u.phone) × (u'.is_deleted ≡ u.is_deleted) × (u'.id ≡ u.id)
unfolding update_user_profile
profile-keeps name date_of_birth w u = (ground arith, ground arith, ground arith)

restored-active :
    (u : User)
    → let u' = restored u in (u'.is_deleted ≡ false) × (u'.phone ≡ u.phone) × (u'.id ≡ u.id)
restored-active u = (ground arith, ground arith, ground arith)

account-IsAccount :
    (v : Verification) (phone : String) (w : Option Staff) (found : Option User) (u : User)
    (s : Session) (db : Database)
    → user_by_phone phone db ≡ found
    → (account v phone w found s).0 ≡ ok u
    → IsAccount v phone found s.work.users.next_id u
unfolding existing_user register_user user_by_phone new_user
account-IsAccount v phone w (some u₀) u s db e h =
    let (same_phone, same_state, same_id) = profile-keeps v.name v.date_of_birth w (restored u₀) in
    let (active, same, id) = restored-active u₀ in
    let found_phone = first-holds (λ u. str_eq u.phone phone) db.users.rows e in
    record {
      phone_eq = ground (arith, eq_iff u₀.phone phone);
      active = ground arith;
      known = λ u₁ here. ground arith;
      made = λ n. cc;
    }
account-IsAccount v phone w none u s db e h = elim (Bool-cases (lower_is v.purpose "register")) [
  | inl r ↦
      let u₀ = new_user phone v.name v.date_of_birth (waiter_id_of w) s.work.users.next_id in
      let (same_phone, same_state, same_id) = profile-keeps v.name v.date_of_birth w u₀ in
      let same : ok (update_user_profile v.name v.date_of_birth w u₀) ≡ ok u = rw r at h in
      record {
        phone_eq = ground arith;
        active = ground arith;
        known = λ u₁ here. cc;
        made = λ n. (r, ground arith);
      }
  | inr r ↦ cc (rw r at h)
]

verify_missing-users :
    (o : OtpService) (now : ℕ) (phone code purpose : String) (s : Session)
    → (verify_missing o now phone code purpose s).1.work.users ≡ s.work.users
unfolding verify_missing redeem mark_used
verify_missing-users o now phone code purpose s = ground arith

verify_found-users :
    (o : OtpService) (now : ℕ) (phone code purpose : String) (found : Option OtpCode) (s : Session)
    → (verify_found o now phone code purpose found s).1.work.users ≡ s.work.users
unfolding verify_found redeem mark_used
verify_found-users o now phone code purpose none s = verify_missing-users o now phone code purpose s
verify_found-users o now phone code purpose (some c) s = ground arith

find_waiter-session : (code : Option String) (s : Session) → (find_waiter code s).1 ≡ s
unfolding find_waiter
find_waiter-session none s = refl
find_waiter-session (some code) s = ground arith

verify_otp-users :
    (o : OtpService) (now : ℕ) (phone code purpose : String) (s : Session)
    → normalize_uzbek_phone phone ≡ ok phone
    → (verify_otp o now phone code purpose s).1.work.users ≡ s.work.users
unfolding verify_otp
verify_otp-users o now phone code purpose s n =
    rw n (verify_found-users o now phone code purpose (find_code phone code purpose s.work) s)

-- What a login gives: the account, its tokens, and the code that was used up for it.
pub record IsLogin (x : Security) (o : OtpService) (now : ℕ) (v : Verification) (phone : String)
    (db : Database) (u : User) (t : Tokens x) : Type 0 where
  pub otp : OtpCode
  pub redeemed : IsRedeemed now phone v.code v.purpose otp
  pub basis : HasGround o phone v.code v.purpose (record { work = db; saved = db })
  pub entered : IsAccount v phone (user_by_phone phone db) db.users.next_id u
  pub tokens : t ≡ issue_tokens x o.settings now client u.id []

pub fixed :
    (phone text : String)
    → normalize_uzbek_phone text ≡ ok phone
    → normalize_uzbek_phone phone ≡ ok phone
fixed phone text n = (normalize_fixed phone).0 (normalize-IsUzbekPhone text phone n)

enter_account-IsAccount :
    (x : Security) (o : OtpService) (now : ℕ) (v : Verification) (by : Caller) (phone : String)
    (otp_id : ℕ) (w : Option Staff) (s : Session) (u : User) (t : Tokens x)
    → (enter_account x o now v by phone otp_id w s).0 ≡ ok (u, t)
    → IsAccount v phone (user_by_phone phone s.work) s.work.users.next_id u
      × (t ≡ issue_tokens x o.settings now client u.id [])
unfolding enter_account log_auth_event
enter_account-IsAccount x o now v by phone otp_id w s u t h =
    let (user, made, rest) =
      bind_ok (account v phone w (user_by_phone phone s.work)) _ s (u, t) h in
    let same : user ≡ u = cc in
    let issued : t ≡ issue_tokens x o.settings now client user.id [] = cc in
    (
      subst (IsAccount v phone (user_by_phone phone s.work) s.work.users.next_id) same
          (account-IsAccount v phone w (user_by_phone phone s.work) user s s.work refl made),
      issued ∙ ap (λ z. issue_tokens x o.settings now client z.id []) same,
    )

prepare_login-IsLogin :
    (x : Security) (o : OtpService) (now : ℕ) (v : Verification) (by : Caller) (phone : String)
    (db : Database) (u : User) (t : Tokens x)
    → normalize_uzbek_phone v.phone ≡ ok phone
    → (prepare_login x o now v by (record { work = db; saved = db })).0 ≡ ok (u, t)
    → IsLogin x o now v phone db u t
unfolding prepare_login user_by_phone
prepare_login-IsLogin x o now v by phone db u t n h =
    let s : Session = record { work = db; saved = db } in
    let again = fixed phone v.phone n in
    let (otp, verified, k₁) =
      bind_ok (verify_otp o now phone v.code v.purpose) _ s (u, t) (rw n at h) in
    let s₁ = (verify_otp o now phone v.code v.purpose s).1 in
    let (w, referred, k₂) = bind_ok (find_waiter v.waiter_referral_code) _ s₁ (u, t) k₁ in
    let k₃ = rw (find_waiter-session v.waiter_referral_code s₁) at k₂ in
    let (entered, issued) = enter_account-IsAccount x o now v by phone otp.id w s₁ u t k₃ in
    let (redeemed, basis) =
      verify_otp_sound o now phone phone v.code v.purpose otp s again verified in
    record {
      otp = otp;
      redeemed = redeemed;
      basis = basis;
      entered = rw (verify_otp-users o now phone v.code v.purpose s again) at entered;
      tokens = issued;
    }

-- A verification that succeeds, for a phone whose normal form is `phone`, rests on a code for that phone
-- with the given code and purpose that had not run out, unused in the database or the demo code of a phone
-- on the bypass list. It returns an active account of that phone: the one that the database has, with its
-- id, also where it is marked deleted, or for the purpose `register` a new one with the next id. The tokens
-- are those of that id.
pub verify_client_otp_sound :
    (x : Security) (o : OtpService) (now : ℕ) (v : Verification) (by : Caller) (phone : String)
    (db : Database) (u : User) (t : Tokens x)
    → normalize_uzbek_phone v.phone ≡ ok phone
    → (request (verify_client_otp x o now v by) db).0 ≡ ok (u, t)
    → IsLogin x o now v phone db u t
unfolding verify_client_otp
verify_client_otp_sound x o now v by phone db u t n h =
    let s : Session = record { work = db; saved = db } in
    let (r, made, rest) = bind_ok (prepare_login x o now v by) _ s (u, t) h in
    let same : r ≡ (u, t) = cc in
    prepare_login-IsLogin x o now v by phone db u t n (made ∙ ap ok same)
