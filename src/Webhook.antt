-- ===== src/Webhook.antt =====
-- app/routers/iiko_integration.py: the events of the loyalty provider. The parser of the payload and the
-- logging are left out: a body is empty, invalid or read.
pub mod Events
pub mod Redelivery
mod Tests
use text.Mathlib.Text.{◌==◌ as str_eq}
use sardoba_app_server.Prelude.{
  ℕ, ◌+◌, String, Bool, true, false, not, ◌&&◌, ◌||◌, Option, none, some, List, ◌==◌, if◌then◌else◌,
  first, is_some,
}
use sardoba_app_server.Prelude.Int.{ℤ, pos, neg, abs, eqb_ℤ}
use sardoba_app_server.Failure.{Failure, Outcome, ok, raised, or_raise, http_exception, type_error}
use sardoba_app_server.SyncJobs.{holds_text}
use sardoba_app_server.Otp.{truthy}
use sardoba_app_server.Models.{User, CashbackTransaction, manual, Database}
use sardoba_app_server.Cashback.{
  TransactionType, accrual, pay_from_wallet, Adjustment, adjust_cashback_balance,
}
use sardoba_app_server.Service.{Service, ◌>>=◌, ◌>>◌, pure, lift, query, unless}

-- The fields of `IikoWebhookPayload` of app/schemas/iiko.py that the handler reads.
pub record IikoWebhookPayload : Type 0 where
  pub sum : Option ℤ
  pub balance : Option ℤ
  pub wallet_id : Option String
  pub id : Option String
  pub customer_id : Option String
  pub uoc_id : Option String
  pub transaction_type : TransactionType
  pub phone : Option String

pub data Body : Type 0 where
  empty invalid : Body
  valid : IikoWebhookPayload → Body

pub data WebhookReply : Type 0 where
  ignored no_change : TransactionType → WebhookReply
  processed : ℕ → TransactionType → Option ℤ → WebhookReply

-- `abs(None)` raises.
abbrev signed_sum : TransactionType → Option ℤ → Outcome (Option ℤ)
signed_sum accrual none = raised type_error
signed_sum accrual (some raw) = ok (some (abs raw))
signed_sum pay_from_wallet none = raised type_error
signed_sum pay_from_wallet (some raw) = ok (some (neg (abs raw)))
signed_sum _ raw = ok raw

unfoldable pub determine_amount : IikoWebhookPayload → Outcome (Option ℤ)
determine_amount p = signed_sum p.transaction_type p.sum

-- `column == value`; a comparison with `None` asks for NULL.
abbrev same_or_null : Option String → Option String → Bool
same_or_null column none = not (is_some column)
same_or_null column (some v) = holds_text column v

abbrev same_text : String → Option String → Bool
same_text column none = false
same_text column (some v) = str_eq column v

-- The wallet id takes no part in the search.
unfoldable pub find_user_for_identifiers : Option String → Option String → Database → Option User
find_user_for_identifiers customer_id phone db =
    first
      (λ u.
        same_or_null u.iiko_customer_id customer_id
        && (same_text u.phone phone && not u.is_deleted))
      db.users.rows

unfoldable pub read_body : Body → Outcome IikoWebhookPayload
read_body empty = raised (http_exception 400 "Request body is empty")
read_body invalid = raised (http_exception 400 "Invalid webhook payload")
read_body (valid p) = ok p

-- The user and the amount that an event is about.
unfoldable pub locate_event : IikoWebhookPayload → Service (User × Option ℤ)
unfolding find_user_for_identifiers determine_amount
locate_event p = do
  unless (truthy p.wallet_id || truthy p.customer_id)
      (http_exception 400 "walletId or customerId is required to locate the user")
  found ← query (find_user_for_identifiers p.customer_id p.phone)
  user ← lift (or_raise found (http_exception 404 "User not found"))
  amount ← lift (determine_amount p)
  pure (user, amount)

abbrev pub event_adjustment : IikoWebhookPayload → Option ℤ → Adjustment
event_adjustment p amount = record {
  amount = amount;
  branch_id = none;
  source = manual;
  staff_id = none;
  transaction_type = p.transaction_type;
  balance_override = p.balance;
  event_id = p.id;
  uoc_id = p.uoc_id;
  push_only_notification = true;
}

abbrev is_zero : Option ℤ → Bool
is_zero none = false
is_zero (some a) = eqb_ℤ a (pos 0)

unfoldable pub reply_of : IikoWebhookPayload → Option ℤ → Option CashbackTransaction → WebhookReply
reply_of p amount none = no_change p.transaction_type
reply_of p amount (some t) = processed t.id p.transaction_type amount

unfoldable pub apply_event :
    (ℤ → String) → ℕ → IikoWebhookPayload → User × Option ℤ → Service WebhookReply
unfolding reply_of adjust_cashback_balance
apply_event show_amount now p (user, amount) =
    if is_zero amount then pure (ignored p.transaction_type) else (do
      t ← adjust_cashback_balance show_amount user (event_adjustment p amount) now
      pure (reply_of p amount t))

unfoldable pub iiko_webhook : (ℤ → String) → ℕ → Body → Service WebhookReply
unfolding read_body locate_event apply_event
iiko_webhook show_amount now body = do
  p ← lift (read_body body)
  target ← locate_event p
  apply_event show_amount now p target
