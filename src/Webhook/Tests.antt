-- ===== src/Webhook/Tests.antt =====
-- The webhook at a concrete database.
use sardoba_app_server.Prelude.{◌≡◌, refl, String, none, some, [], ◌∷◌, count, first, update_rows}
use sardoba_app_server.Prelude.Int.{ℤ, pos, negsuc, ◌+ℤ◌, ◌-ℤ◌}
use sardoba_app_server.Samples.{database_of, sample_user, sample_balance}
use sardoba_app_server.Failure.{ok}
use sardoba_app_server.Models.{User, Database}
use sardoba_app_server.Service.{request}
use sardoba_app_server.Cashback.{
  pay_from_wallet, accrual, adjust_cashback_balance, adjust_amount, change_balance, ensure_balance,
  record_change, new_balance, set_balance, event_taken, insertable, has_references, fits_decimal,
  new_transaction, add_transaction, redeems_gift, find_balance, settle,
}
use sardoba_app_server.Cashback.Notify.{notify_cashback_change, preferred_language}
use sardoba_app_server.Webhook.{
  IikoWebhookPayload, valid, processed, iiko_webhook, read_body, locate_event,
  find_user_for_identifiers, determine_amount, apply_event, reply_of,
}
use sardoba_app_server.Webhook.Redelivery.{iiko_webhook_once}

abbrev show_sum : ℤ → String
show_sum a = "1"

abbrev customer : User
customer = record sample_user { iiko_customer_id = some "c1" }

abbrev shop : Database
shop = database_of (customer ∷ []) [] (sample_balance ∷ [])

abbrev payment : IikoWebhookPayload
payment = record {
  sum = some (pos 500_000);
  balance = none;
  wallet_id = none;
  id = some "e1";
  customer_id = some "c1";
  uoc_id = none;
  transaction_type = pay_from_wallet;
  phone = some "+998901112233";
}

-- The sign that the event gives its sum does not matter.
payment_runs :
    (request (iiko_webhook show_sum 100 (valid payment)) shop).0
    ≡ ok (processed 1 pay_from_wallet (some (negsuc 499_999)))
unfolding iiko_webhook read_body locate_event find_user_for_identifiers first determine_amount
    apply_event reply_of adjust_cashback_balance adjust_amount change_balance ensure_balance
    record_change new_balance ◌-ℤ◌ ◌+ℤ◌ set_balance event_taken insertable has_references count
    fits_decimal new_transaction add_transaction redeems_gift find_balance settle update_rows
    notify_cashback_change preferred_language
payment_runs = refl

iiko_webhook_once_example :
    let db' = (request (iiko_webhook show_sum 100 (valid payment)) shop).1 in
    (request
      (iiko_webhook show_sum 200 (valid (record payment { transaction_type = accrual })))
      db').1
    ≡ db'
iiko_webhook_once_example =
    iiko_webhook_once show_sum 100 200 payment (record payment { transaction_type = accrual })
      (some (negsuc 499_999)) 1 pay_from_wallet shop "e1" refl refl payment_runs
