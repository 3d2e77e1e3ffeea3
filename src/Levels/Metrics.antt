-- ===== src/Levels/Metrics.antt =====
-- Where a level starts and ends, and the progress that app/models/user.py reports within it.
use sardoba_app_server.Prelude.{◌+◌, ◌≡◌, ◌<◌, Option, none, some, arith}
use sardoba_app_server.Prelude.Int.{ℤ, pos, ◌≤ℤ◌, ◌+ℤ◌, ◌-ℤ◌, pos_part, neg_part}
use sardoba_app_server.Models.{User, UserLevel, CashbackBalance}
use sardoba_app_server.Levels.{
  level_threshold, determine_level_for_balance, next_level, loyalty_metrics,
}

-- The points stay below the next level, if there is one.
abbrev pub Below : ℤ → Option UserLevel → Type 0
Below p none = Unit
Below p (some l) =
    pos_part p + neg_part (level_threshold l) < pos_part (level_threshold l) + neg_part p

-- The level of a non-negative number of points is the one level whose threshold they reach without
-- reaching the next.
pub determine_level_bounds :
    (p : ℤ)
    → pos 0 ≤ℤ p
    → let level = determine_level_for_balance (some p) in
      (level_threshold level ≤ℤ p) × Below p (next_level level)
unfolding determine_level_for_balance next_level
determine_level_bounds p h = ground arith

abbrev pub missing : Option ℤ → ℤ
missing none = pos 0
missing (some n) = n

-- The loyalty report of a user whose level fits a non-negative number of points: the progress and the
-- points that are missing add up to the width of the level, and neither is negative. At the highest
-- level nothing is missing, and the progress is all that lies above the threshold.
pub loyalty_metrics_split :
    (u : User) (w : CashbackBalance)
    → pos 0 ≤ℤ w.points
    → u.level ≡ determine_level_for_balance (some w.points)
    → let m = loyalty_metrics u (some w) in
      (pos 0 ≤ℤ m.progress_in_level)
      × (m.progress_in_level +ℤ missing m.points_to_next
          ≡ m.current_level_cap -ℤ m.current_level_floor)
      × (pos 0 ≤ℤ missing m.points_to_next)
unfolding loyalty_metrics determine_level_for_balance ◌+ℤ◌
loyalty_metrics_split u w h e = ground arith
