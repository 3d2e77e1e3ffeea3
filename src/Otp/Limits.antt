-- ===== src/Otp/Limits.antt =====
-- The rate limit of app/services/otp_service.py.
use sardoba_app_server.Prelude.{
  ℕ, ◌+◌, ◌≤◌, ◌<◌, ◌≡◌, refl, String, Bool, true, false, Option, [], ◌∷◌, arith, inl, inr,
  Bool-cases, count,
}
use sardoba_app_server.Prelude.Selection.{count-append}
use text.Mathlib.TextPositions.{eq_refl}
use sardoba_app_server.Failure.{Outcome, ok, raised, rate_limit_exceeded}
use sardoba_app_server.Phone.{normalize_uzbek_phone}
use sardoba_app_server.Settings.{IsSettings}
use sardoba_app_server.Service.{Session, ◌>>◌, continue}
use sardoba_app_server.Models.{OtpCode}
use sardoba_app_server.Otp.{
  OtpService, OtpRequest, enforces_limit, recent_for_phone, phone_allowed, ip_allowed, check_limits,
  new_code, add_demo_code, send_otp, issue_otp, request_otp, generate_code,
}

phone_blocked :
    (o : OtpService) (now : ℕ) (phone : String) (s : Session)
    → 1 ≤ o.settings.otp_rate_limit_per_hour
    → o.settings.otp_rate_limit_per_hour
      ≤ count (recent_for_phone o now phone) s.work.otp_codes.rows
    → phone_allowed o now phone s.work ≡ false
unfolding phone_allowed
phone_blocked o now phone s pos full = ground arith

-- Where the limit applies to the phone and purpose, and the session holds as many codes made for the
-- normalized phone within the window as the limit allows, a request is refused and writes nothing.
pub request_otp_over_limit :
    (o : OtpService) (sms : String → String → Bool) (now : ℕ) (random_code : String)
    (r : OtpRequest) (phone : String) (s : Session)
    → IsSettings o.settings
    → normalize_uzbek_phone r.phone ≡ ok phone
    → enforces_limit o phone r.purpose ≡ true
    → o.settings.otp_rate_limit_per_hour
      ≤ count (recent_for_phone o now phone) s.work.otp_codes.rows
    → request_otp o sms now random_code r s ≡ (raised rate_limit_exceeded, s)
unfolding request_otp check_limits
request_otp_over_limit o sms now random_code r phone s c n e full =
    rw (n, e, phone_blocked o now phone s c.otp_limit full)

phone_allowed-lt :
    (o : OtpService) (now : ℕ) (phone : String) (s : Session)
    → 1 ≤ o.settings.otp_rate_limit_per_hour
    → phone_allowed o now phone s.work ≡ true
    → count (recent_for_phone o now phone) s.work.otp_codes.rows
      < o.settings.otp_rate_limit_per_hour
unfolding phone_allowed
phone_allowed-lt o now phone s pos h = ground arith

new_code_recent :
    (o : OtpService) (now : ℕ) (phone code purpose : String) (ip user_agent : Option String)
    (id : ℕ)
    → count (recent_for_phone o now phone) (new_code o now phone code purpose ip user_agent id ∷ [])
      ≡ 1
unfolding count recent_for_phone new_code
new_code_recent o now phone code purpose ip user_agent id = ground (arith, eq_refl phone)

check_limits_ok :
    (o : OtpService) (now : ℕ) (phone purpose : String) (ip : Option String) (s : Session)
    → enforces_limit o phone purpose ≡ true
    → (check_limits o now phone purpose ip s).0 ≡ ok tt
    → (phone_allowed o now phone s.work ≡ true) × ((check_limits o now phone purpose ip s).1 ≡ s)
unfolding check_limits
check_limits_ok o now phone purpose ip s e h =
    elim (Bool-cases (phone_allowed o now phone s.work)) [
      | inl a ↦ elim (Bool-cases (ip_allowed o now ip s.work)) [
        | inl b ↦ rw (e, a, b) (refl, refl)
        | inr b ↦ cc (rw (e, a, b) at h)
      ]
      | inr a ↦ cc (rw (e, a) at h)
    ]

issue_one :
    (o : OtpService) (sms : String → String → Bool) (now : ℕ) (random_code : String)
    (r : OtpRequest) (phone : String) (s : Session)
    → enforces_limit o phone r.purpose ≡ true
    → count
        (recent_for_phone o now phone)
        (issue_otp o sms now random_code r phone s).1.work.otp_codes.rows
      ≡ count (recent_for_phone o now phone) s.work.otp_codes.rows + 1
unfolding issue_otp add_demo_code send_otp enforces_limit
issue_one o sms now random_code r phone s e =
    let p = recent_for_phone o now phone in
    let c =
      new_code o now phone (generate_code o random_code) r.purpose r.ip r.user_agent
        s.work.otp_codes.next_id in
    ground (
      arith,
      count-append p s.work.otp_codes.rows (c ∷ []),
      new_code_recent o now phone (generate_code o random_code) r.purpose r.ip r.user_agent
          s.work.otp_codes.next_id,
    )

after_limits :
    (o : OtpService) (sms : String → String → Bool) (now : ℕ) (random_code : String)
    (r : OtpRequest) (phone : String) (s : Session) (limits : Outcome (Unit {0}) × Session)
    (c : OtpCode)
    → (limits.0 ≡ ok tt → limits.1 ≡ s)
    → (continue limits.0 (λ _. issue_otp o sms now random_code r phone) limits.1).0 ≡ ok c
    → (limits.0 ≡ ok tt)
      × (continue limits.0 (λ _. issue_otp o sms now random_code r phone) limits.1
          ≡ issue_otp o sms now random_code r phone s)
after_limits o sms now random_code r phone s (ok tt, s') c same h = (refl, rw (same refl))
after_limits o sms now random_code r phone s (raised e, s') c same h = cc

request_otp-eq :
    (o : OtpService) (sms : String → String → Bool) (now : ℕ) (random_code : String)
    (r : OtpRequest) (phone : String) (s : Session)
    → normalize_uzbek_phone r.phone ≡ ok phone
    → request_otp o sms now random_code r s
      ≡ (check_limits o now phone r.purpose r.ip >> issue_otp o sms now random_code r phone) s
unfolding request_otp
request_otp-eq o sms now random_code r phone s n = rw n

request_otp_passed :
    (o : OtpService) (sms : String → String → Bool) (now : ℕ) (random_code : String)
    (r : OtpRequest) (phone : String) (c : OtpCode) (s : Session)
    → enforces_limit o phone r.purpose ≡ true
    → ((check_limits o now phone r.purpose r.ip >> issue_otp o sms now random_code r phone) s).0
      ≡ ok c
    → (phone_allowed o now phone s.work ≡ true)
      × ((check_limits o now phone r.purpose r.ip >> issue_otp o sms now random_code r phone) s
          ≡ issue_otp o sms now random_code r phone s)
request_otp_passed o sms now random_code r phone c s e h =
    let passed = check_limits_ok o now phone r.purpose r.ip s e in
    let (allowed, same) =
      after_limits o sms now random_code r phone s (check_limits o now phone r.purpose r.ip s) c
        (λ k. (passed k).1) h in
    ((passed allowed).0, same)

-- Where the limit applies, a request that succeeds was made with the phone under its limit, and leaves
-- one code more for it: never more codes within the window than the limit allows.
pub request_otp_within_limit :
    (o : OtpService) (sms : String → String → Bool) (now : ℕ) (random_code : String)
    (r : OtpRequest) (phone : String) (c : OtpCode) (s : Session)
    → IsSettings o.settings
    → normalize_uzbek_phone r.phone ≡ ok phone
    → enforces_limit o phone r.purpose ≡ true
    → (request_otp o sms now random_code r s).0 ≡ ok c
    → let rows = (request_otp o sms now random_code r s).1.work.otp_codes.rows in
      (count (recent_for_phone o now phone) rows
        ≡ count (recent_for_phone o now phone) s.work.otp_codes.rows + 1)
      × (count (recent_for_phone o now phone) rows ≤ o.settings.otp_rate_limit_per_hour)
request_otp_within_limit o sms now random_code r phone c s settings n e h =
    let steps = request_otp-eq o sms now random_code r phone s n in
    let (allowed, same) = request_otp_passed o sms now random_code r phone c s e (rw steps at h) in
    rw (steps, same)
      (
        omega (
          arith,
          issue_one o sms now random_code r phone s e,
          phone_allowed-lt o now phone s settings.otp_limit allowed,
        ),
        omega (
          arith,
          issue_one o sms now random_code r phone s e,
          phone_allowed-lt o now phone s settings.otp_limit allowed,
        ),
      )
