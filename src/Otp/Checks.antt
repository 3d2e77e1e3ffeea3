-- ===== src/Otp/Checks.antt =====
-- What a successful verification of app/services/otp_service.py rests on.
use sardoba_app_server.Prelude.{
  ℕ, ◌≤◌, ◌<◌, ◌≡◌, refl, String, true, Option, none, some, arith, ◌⊎◌, inl, inr, order_by,
  first-holds,
}
use sardoba_app_server.Prelude.Selection.{count-order_by, count-first-some}
use text.Mathlib.TextEquality.{eq_iff}
use sardoba_app_server.Failure.{ok}
use sardoba_app_server.Phone.{normalize_uzbek_phone}
use sardoba_app_server.Service.{Session}
use sardoba_app_server.Models.{OtpCode}
use sardoba_app_server.Otp.SingleUse.{stored}
use sardoba_app_server.Otp.{
  OtpService, is_among, matches, latest_first, find_code, redeem, new_code, verify_missing,
  verify_found, verify_otp,
}

-- A code that verifies: it is the right one, it had not run out, and it is used up.
pub record IsRedeemed (now : ℕ) (phone code purpose : String) (c : OtpCode) : Type 0 where
  pub phone_eq : c.phone ≡ phone
  pub code_eq : c.code ≡ code
  pub purpose_eq : c.purpose ≡ purpose
  pub in_time : now ≤ c.expires_at
  pub used_up : c.is_used ≡ true

redeem-IsRedeemed :
    (now : ℕ) (phone code purpose : String) (c d : OtpCode) (s : Session)
    → c.phone ≡ phone
    → c.code ≡ code
    → c.purpose ≡ purpose
    → (redeem now phone code purpose c s).0 ≡ ok d
    → IsRedeemed now phone code purpose d
unfolding redeem
redeem-IsRedeemed now phone code purpose c d s hp hc hu e = ground arith

found_matches :
    (phone code purpose : String) (s : Session) (c : OtpCode)
    → find_code phone code purpose s.work ≡ some c
    → (c.phone ≡ phone)
      × (c.code ≡ code)
      × (c.purpose ≡ purpose)
      × (0 < stored phone code purpose s)
unfolding find_code matches
found_matches phone code purpose s c e =
    let rows = s.work.otp_codes.rows in
    let p = matches phone code purpose in
    let h = first-holds p (order_by latest_first rows) e in
    let n = count-first-some p (order_by latest_first rows) c e in
    let m = count-order_by p latest_first rows in
    ground (arith, eq_iff c.phone phone, eq_iff c.code code, eq_iff c.purpose purpose)

-- Why a verification may succeed at all: a stored code that is not used, or the demo code of a phone
-- on the bypass list.
abbrev pub HasGround : OtpService → String → String → String → Session → Type 0
HasGround o phone code purpose s =
    (0 < stored phone code purpose s)
    ⊎ ((is_among phone o.verify_bypass ≡ true) × (code ≡ o.demo_code))

verify_missing-IsRedeemed :
    (o : OtpService) (now : ℕ) (phone code purpose : String) (d : OtpCode) (s : Session)
    → (verify_missing o now phone code purpose s).0 ≡ ok d
    → IsRedeemed now phone code purpose d
      × ((is_among phone o.verify_bypass ≡ true) × (code ≡ o.demo_code))
unfolding verify_missing redeem new_code
verify_missing-IsRedeemed o now phone code purpose d s e =
    (ground arith, ground (arith, eq_iff code o.demo_code))

verify_found-IsRedeemed :
    (o : OtpService) (now : ℕ) (phone code purpose : String) (found : Option OtpCode) (d : OtpCode)
    (s : Session)
    → find_code phone code purpose s.work ≡ found
    → (verify_found o now phone code purpose found s).0 ≡ ok d
    → IsRedeemed now phone code purpose d × HasGround o phone code purpose s
unfolding verify_found
verify_found-IsRedeemed o now phone code purpose none d s f e =
    let (redeemed, bypass) = verify_missing-IsRedeemed o now phone code purpose d s e in
    (redeemed, inr bypass)
verify_found-IsRedeemed o now phone code purpose (some c) d s f e =
    let (p, k, u, n) = found_matches phone code purpose s c f in
    (redeem-IsRedeemed now phone code purpose c d s p k u e, inl n)

-- A verification that succeeds returns a code for the normalized phone, with the given code and
-- purpose, that has not run out and is now used; and there was an unused stored code with these
-- three, or the phone is on the bypass list and the code is the demo code.
pub verify_otp_sound :
    (o : OtpService) (now : ℕ) (raw_phone phone code purpose : String) (c : OtpCode) (s : Session)
    → normalize_uzbek_phone raw_phone ≡ ok phone
    → (verify_otp o now raw_phone code purpose s).0 ≡ ok c
    → IsRedeemed now phone code purpose c × HasGround o phone code purpose s
unfolding verify_otp
verify_otp_sound o now raw_phone phone code purpose c s n e =
    verify_found-IsRedeemed o now phone code purpose (find_code phone code purpose s.work) c s refl
      (rw n at e)
