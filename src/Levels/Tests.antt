-- ===== src/Levels/Tests.antt =====
-- The theorems on levels at concrete points.
use sardoba_app_server.Prelude.Int.{pos}
use sardoba_app_server.Samples.{sample_user, sample_balance}
use sardoba_app_server.Models.{User, gold, CashbackBalance}

abbrev gold_user : User
gold_user = record sample_user { level = gold }

abbrev gold_wallet : CashbackBalance
gold_wallet = record sample_balance { points = pos 1_500_000 }
