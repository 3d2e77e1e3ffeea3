-- ===== src/Samples.antt =====
-- Small rows and databases for the tests.
use sardoba_app_server.Prelude.{true, false, none, some, List, []}
use sardoba_app_server.Prelude.Int.{pos}
use sardoba_app_server.Text.{join}
use sardoba_app_server.Settings.{Settings}
use sardoba_app_server.Models.{
  User, silver, OtpCode, manager, AuthLog, Staff, waiter, CashbackBalance, Database,
}
use sardoba_app_server.Service.{Session}

abbrev pub sample_settings : Settings
sample_settings = record {
  access_token_expire_minutes = 30;
  refresh_token_expire_days = 7;
  otp_static_code = none;
  otp_expiration_minutes = 5;
  otp_rate_limit_per_hour = 2;
  rate_limit_block_minutes = 15;
  login_rate_limit_per_window = 1;
  otp_rate_limit_bypass_phones = [];
  otp_bypass_verify_phones = [];
  demo_phone = none;
  otp_demo_code = "1111";
  sms_dry_run = true;
  fill_sms_template = join "Code: ";
}

abbrev pub database_of : List User → List OtpCode → List CashbackBalance → Database
database_of users codes balances = record {
  users = record { rows = users; next_id = 8 };
  staff = record { rows = []; next_id = 1 };
  otp_codes = record { rows = codes; next_id = 10 };
  auth_logs = record { rows = []; next_id = 1 };
  balances = balances;
  transactions = record { rows = []; next_id = 1 };
  jobs = record { rows = []; next_id = 1 };
  notifications = record { rows = []; next_id = 1 };
  tokens = record { rows = []; next_id = 1 };
  cards = record { rows = []; next_id = 1 };
  broadcasts = record { rows = []; next_id = 1 };
  categories = record { rows = []; next_id = 1 };
  products = record { rows = []; next_id = 1 };
}

abbrev pub session_of : Database → Session
session_of db = record { work = db; saved = db }

abbrev pub sample_user : User
sample_user = record {
  id = 7;
  name = some "Ali";
  surname = none;
  middle_name = none;
  phone = "+998901112233";
  waiter_id = none;
  date_of_birth = none;
  profile_photo_url = none;
  level = silver;
  iiko_wallet_id = none;
  iiko_customer_id = none;
  pending_iiko_profile_update = none;
  email = none;
  gender = none;
  is_deleted = false;
  deleted_at = none;
  giftget = false;
}

abbrev pub sample_code : OtpCode
sample_code = record {
  id = 3;
  phone = "+998901112233";
  code = "1234";
  purpose = "login";
  expires_at = 300_000_000;
  is_used = false;
  created_at = 0;
  ip = none;
  user_agent = none;
}

abbrev pub sample_balance : CashbackBalance
sample_balance = record { user_id = 7; balance = pos 9_000_000; points = pos 0 }

-- Passwords are their own hashes in the tests.
abbrev pub sample_waiter : Staff
sample_waiter = record {
  id = 2;
  name = "Vali";
  phone = "+998905556677";
  password_hash = "secret";
  role = waiter;
  branch_id = none;
  referral_code = some "AB12CD";
}

abbrev pub sample_manager : Staff
sample_manager = record sample_waiter {
  id = 1;
  phone = "+998900000000";
  role = manager;
  referral_code = none;
}

abbrev pub with_staff : List Staff → List AuthLog → Database → Database
with_staff staff logs db = record db {
  staff = record { rows = staff; next_id = 9 };
  auth_logs = record { rows = logs; next_id = 9 };
}
