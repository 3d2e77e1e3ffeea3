-- ===== src/Cashback/Tests.antt =====
-- Runs of the cashback service, and its theorems at concrete databases.
use sardoba_app_server.Prelude.{
  ◌≡◌, refl, String, true, none, some, [], ◌∷◌, count, first, update_rows,
}
use sardoba_app_server.Prelude.Int.{ℤ, pos}
use sardoba_app_server.Samples.{database_of, session_of, sample_user, sample_balance}
use sardoba_app_server.Failure.{ok}
use sardoba_app_server.Models.{Database, CashbackTransaction, order}
use sardoba_app_server.Service.{request}
use sardoba_app_server.Cashback.{
  Adjustment, accrual, pay_from_wallet, adjust_cashback_balance, new_transaction, adjust_amount,
  change_balance, ensure_balance, record_change, new_balance, set_balance, event_taken, insertable,
  has_references, fits_decimal, add_transaction, redeems_gift, find_balance, settle,
}
use sardoba_app_server.Cashback.Adjust.{Settled, adjust-Settled}
use sardoba_app_server.Cashback.Once.{adjust_once}
use sardoba_app_server.Cashback.Notify.{notify_cashback_change}

abbrev show_sum : ℤ → String
show_sum a = "1"

abbrev shop : Database
shop = database_of (sample_user ∷ []) [] (sample_balance ∷ [])

abbrev earn : Adjustment
earn = record {
  amount = some (pos 500_000);
  branch_id = none;
  source = order;
  staff_id = none;
  transaction_type = accrual;
  balance_override = none;
  event_id = some "e1";
  uoc_id = none;
  push_only_notification = true;
}

abbrev spend : Adjustment
spend = record earn { transaction_type = pay_from_wallet }

adjust-Settled_example :
    let (r, s') = adjust_cashback_balance show_sum sample_user earn 100 (session_of shop) in
    Settled sample_user earn 100 shop shop r s'.saved
adjust-Settled_example = adjust-Settled show_sum sample_user earn 100 (session_of shop)

earned : CashbackTransaction
earned = new_transaction earn 7 (pos 500_000) (pos 9_500_000) 100 1

earn_runs :
    (request (adjust_cashback_balance show_sum sample_user earn 100) shop).0 ≡ ok (some earned)
unfolding adjust_cashback_balance adjust_amount change_balance ensure_balance record_change
    new_balance set_balance event_taken insertable has_references fits_decimal new_transaction
    add_transaction redeems_gift find_balance settle first count update_rows earned
    notify_cashback_change
earn_runs = refl

adjust_once_example :
    let db' = (request (adjust_cashback_balance show_sum sample_user earn 100) shop).1 in
    request (adjust_cashback_balance show_sum sample_user spend 200) db' ≡ (ok none, db')
adjust_once_example =
    adjust_once show_sum sample_user sample_user earn spend 100 200 shop "e1" earned refl refl
      earn_runs
