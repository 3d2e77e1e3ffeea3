-- ===== src/Levels.antt =====
-- Loyalty levels: `determine_level_for_balance`, `apply_level_from_points`, `_next_level` and
-- `loyalty_metrics` of app/models/user.py. Amounts count hundredths.
pub mod Metrics
mod Tests
use sardoba_app_server.Prelude.{
  ℕ, ◌*◌, Bool, true, false, not, Option, none, some, List, [], ◌∷◌, if◌then◌else◌,
}
use sardoba_app_server.Prelude.Int.{ℤ, pos, ltb_ℤ, leb_ℤ, ◌-ℤ◌}
use sardoba_app_server.Models.{User, UserLevel, silver, gold, premium, vip, CashbackBalance}

-- LEVEL_THRESHOLDS
abbrev pub level_threshold : UserLevel → ℤ
level_threshold silver = pos 0
level_threshold gold = pos 1_000_000
level_threshold premium = pos 4_000_000
level_threshold vip = pos 12_000_000

-- reversed(LEVEL_SEQUENCE)
abbrev levels_down : List UserLevel
levels_down = vip ∷ premium ∷ gold ∷ silver ∷ []

unfoldable pub normalize_points : Option ℤ → ℤ
normalize_points none = pos 0
normalize_points (some p) = p

first_reached : ℤ → List UserLevel → UserLevel
first_reached points [] = silver
first_reached points (l ∷ ls) =
    if leb_ℤ (level_threshold l) points then l else first_reached points ls

unfoldable pub determine_level_for_balance : Option ℤ → UserLevel
unfolding normalize_points first_reached
determine_level_for_balance balance = first_reached (normalize_points balance) levels_down

abbrev same_level : UserLevel → UserLevel → Bool
same_level silver silver = true
same_level gold gold = true
same_level premium premium = true
same_level vip vip = true
same_level _ _ = false

unfoldable pub apply_level_from_points : User → Option ℤ → User × Bool
unfolding determine_level_for_balance
apply_level_from_points u points =
    let new_level = determine_level_for_balance points in
    if same_level u.level new_level then (u, false) else (record u { level = new_level }, true)

unfoldable pub next_level : UserLevel → Option UserLevel
next_level silver = some gold
next_level gold = some premium
next_level premium = some vip
next_level vip = none

pub record LoyaltyMetrics : Type 0 where
  pub level : UserLevel
  pub balance : ℤ
  pub points : ℤ
  pub current_level_floor : ℤ
  pub current_level_cap : ℤ
  pub progress_in_level : ℤ
  pub next_level : Option UserLevel
  pub next_level_threshold : Option ℤ
  pub points_to_next : Option ℤ

-- max(0, a)
abbrev pub clamp_zero : ℤ → ℤ
clamp_zero a = if ltb_ℤ a (pos 0) then pos 0 else a

abbrev wallet_balance : Option CashbackBalance → ℤ
wallet_balance none = pos 0
wallet_balance (some w) = w.balance

abbrev wallet_points : Option CashbackBalance → ℤ
wallet_points none = pos 0
wallet_points (some w) = w.points

metrics_below : UserLevel → ℤ → ℤ → Option UserLevel → LoyaltyMetrics
metrics_below level balance points none = record {
  level = level;
  balance = balance;
  points = points;
  current_level_floor = level_threshold level;
  current_level_cap = points;
  progress_in_level = clamp_zero (points -ℤ level_threshold level);
  next_level = none;
  next_level_threshold = none;
  points_to_next = none;
}
metrics_below level balance points (some next) = record {
  level = level;
  balance = balance;
  points = points;
  current_level_floor = level_threshold level;
  current_level_cap = level_threshold next;
  progress_in_level = clamp_zero (points -ℤ level_threshold level);
  next_level = some next;
  next_level_threshold = some (level_threshold next);
  points_to_next = some (clamp_zero (level_threshold next -ℤ points));
}

-- The wallet is the user's `cashback_wallet`.
unfoldable pub loyalty_metrics : User → Option CashbackBalance → LoyaltyMetrics
unfolding metrics_below next_level ◌-ℤ◌
loyalty_metrics u wallet =
    metrics_below u.level (wallet_balance wallet) (wallet_points wallet) (next_level u.level)
