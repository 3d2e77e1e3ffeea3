-- ===== src/Otp/SingleUse.antt =====
-- A stored code of app/services/otp_service.py is good for one verification.
use sardoba_app_server.Prelude.{
  ℕ, ◌<◌, ◌≡◌, refl, String, true, false, Option, none, some, arith, inl, inr, Option-cases,
  Bool-cases, ltb, count, first, order_by, first-holds,
}
use sardoba_app_server.Prelude.Selection.{
  count-order_by, count-first, count-consumed, count-first-some, first-count,
}
use sardoba_app_server.Failure.{ok, raised, otp_invalid}
use sardoba_app_server.Phone.{normalize_uzbek_phone}
use sardoba_app_server.Service.{Session}
use sardoba_app_server.Models.{OtpCode}
use sardoba_app_server.Otp.{
  OtpService, is_among, matches, latest_first, find_code, used, redeem, mark_used, is_found,
  verify_found, verify_missing, verify_otp,
}

-- The unused codes in the session that a verification could use.
abbrev pub stored : String → String → String → Session → ℕ
stored phone code purpose s = count (matches phone code purpose) s.work.otp_codes.rows

found_row :
    (phone code purpose : String) (c : OtpCode)
    → matches phone code purpose c ≡ true
    → is_found phone code purpose c.id c ≡ true
unfolding is_found
found_row phone code purpose c h = ground arith

found-matches :
    (phone code purpose : String) (id : ℕ) (c : OtpCode)
    → is_found phone code purpose id c ≡ true
    → matches phone code purpose c ≡ true
unfolding is_found
found-matches phone code purpose id c h = ground arith

used_no_match :
    (phone code purpose : String) (c : OtpCode) → matches phone code purpose (used c) ≡ false
unfolding matches
used_no_match phone code purpose c = ground arith

redeem-work :
    (now : ℕ) (phone code purpose : String) (c : OtpCode) (s : Session)
    → (redeem now phone code purpose c s).1.work ≡ mark_used phone code purpose c.id s.work
unfolding redeem
redeem-work now phone code purpose c s = elim (Bool-cases (ltb c.expires_at now)) [
  | inl e ↦ rw e
  | inr e ↦ rw e
]

mark_used_uses_up :
    (phone code purpose : String) (c : OtpCode) (s : Session)
    → find_code phone code purpose s.work ≡ some c
    → count (matches phone code purpose) (mark_used phone code purpose c.id s.work).otp_codes.rows
      < stored phone code purpose s
unfolding mark_used find_code
mark_used_uses_up phone code purpose c s e =
    let rows = s.work.otp_codes.rows in
    let p = matches phone code purpose in
    let q = is_found phone code purpose c.id in
    let here = found_row phone code purpose c (first-holds p (order_by latest_first rows) e) in
    omega (
      arith,
      count-first p q (order_by latest_first rows) c e here,
      count-order_by q latest_first rows,
      count-consumed p q used (found-matches phone code purpose c.id)
          (used_no_match phone code purpose) rows,
    )

redeem_uses_up :
    (now : ℕ) (phone code purpose : String) (c : OtpCode) (s : Session)
    → find_code phone code purpose s.work ≡ some c
    → stored phone code purpose (redeem now phone code purpose c s).1 < stored phone code purpose s
redeem_uses_up now phone code purpose c s e =
    rw (redeem-work now phone code purpose c s) (mark_used_uses_up phone code purpose c s e)

find_code-none :
    (phone code purpose : String) (s : Session)
    → find_code phone code purpose s.work ≡ none
    → stored phone code purpose s ≡ 0
unfolding find_code
find_code-none phone code purpose s e =
    let rows = s.work.otp_codes.rows in
    let p = matches phone code purpose in
    omega (arith, first-count p (order_by latest_first rows) e, count-order_by p latest_first rows)

verify_found_uses_up :
    (o : OtpService) (now : ℕ) (phone code purpose : String) (s : Session) (found : Option OtpCode)
    → find_code phone code purpose s.work ≡ found
    → 0 < stored phone code purpose s
    → stored phone code purpose (verify_found o now phone code purpose found s).1
      < stored phone code purpose s
unfolding verify_found
verify_found_uses_up o now phone code purpose s none e h =
    absurd (omega (arith, find_code-none phone code purpose s e))
verify_found_uses_up o now phone code purpose s (some c) e h =
    redeem_uses_up now phone code purpose c s e

-- Where the session holds unused codes for the normalized phone, code and purpose, a verification
-- leaves strictly fewer of them, whether it succeeds or finds that the code has run out.
pub verify_otp_uses_up :
    (o : OtpService) (now : ℕ) (raw_phone phone code purpose : String) (s : Session)
    → normalize_uzbek_phone raw_phone ≡ ok phone
    → 0 < stored phone code purpose s
    → stored phone code purpose (verify_otp o now raw_phone code purpose s).1
      < stored phone code purpose s
unfolding verify_otp
verify_otp_uses_up o now raw_phone phone code purpose s n h =
    rw n (verify_found_uses_up o now phone code purpose s _ refl h)

missing_code :
    (phone code purpose : String) (s : Session)
    → stored phone code purpose s ≡ 0
    → find_code phone code purpose s.work ≡ none
unfolding find_code
missing_code phone code purpose s h =
    let rows = s.work.otp_codes.rows in
    let p = matches phone code purpose in
    elim (Option-cases (first p (order_by latest_first rows))) [
      | inl e ↦ e
      | inr (c, e) ↦ absurd (
          omega (
            arith,
            count-first-some p (order_by latest_first rows) c e,
            count-order_by p latest_first rows,
          ))
    ]

-- Without such a code, and off the bypass list, the verification is refused and writes nothing.
pub verify_otp_refuses :
    (o : OtpService) (now : ℕ) (raw_phone phone code purpose : String) (s : Session)
    → normalize_uzbek_phone raw_phone ≡ ok phone
    → stored phone code purpose s ≡ 0
    → is_among phone o.verify_bypass ≡ false
    → verify_otp o now raw_phone code purpose s ≡ (raised otp_invalid, s)
unfolding verify_otp verify_found verify_missing
verify_otp_refuses o now raw_phone phone code purpose s n h b =
    rw (n, missing_code phone code purpose s h, b)
