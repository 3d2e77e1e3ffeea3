-- ===== src/Settings.antt =====
-- The settings that the modelled services read: `Settings` of app/core/config.py. The bounds are the
-- `ge` and `le` of its fields. The SMS template stands as the function that fills it in.
use sardoba_app_server.Prelude.{ℕ, ◌≤◌, String, Bool, Option, List}

pub record Settings : Type 0 where
  pub access_token_expire_minutes : ℕ
  pub refresh_token_expire_days : ℕ
  pub otp_static_code : Option String
  pub otp_expiration_minutes : ℕ
  pub otp_rate_limit_per_hour : ℕ
  pub rate_limit_block_minutes : ℕ
  pub login_rate_limit_per_window : ℕ
  pub otp_rate_limit_bypass_phones : List String
  pub otp_bypass_verify_phones : List String
  pub demo_phone : Option String
  pub otp_demo_code : String
  pub sms_dry_run : Bool
  pub fill_sms_template : String → String

pub record IsSettings (c : Settings) : Type 0 where
  pub expiration : 1 ≤ c.otp_expiration_minutes
  pub otp_limit : 1 ≤ c.otp_rate_limit_per_hour
  pub window : 1 ≤ c.rate_limit_block_minutes
  pub login_limit : 1 ≤ c.login_rate_limit_per_window
