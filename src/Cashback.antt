-- ===== src/Cashback.antt =====
-- app/services/cashback_service.py, with the constraints of its tables from app/models/cashback.py.
-- Amounts count hundredths; the time and the text of an amount are arguments.
pub mod Notify
pub mod Ledger
pub mod Change
pub mod Acceptance
pub mod Adjust
pub mod Once
pub mod Payment
mod Tests
use text.Mathlib.Text.{◌==◌ as str_eq}
use sardoba_app_server.Prelude.{
  ℕ, ◌+◌, ◌*◌, ◌^◌, String, Bool, true, false, not, ◌&&◌, ◌||◌, Option, none, some, List, [], ◌∷◌,
  ◌++◌, ltb, ◌==◌, if◌then◌else◌, first, count, update_rows, is_some,
}
use sardoba_app_server.Prelude.Int.{ℤ, pos, neg, abs, magnitude, ◌+ℤ◌, ◌-ℤ◌, ltb_ℤ, eqb_ℤ}
use sardoba_app_server.Failure.{
  or_raise, Failure, Outcome, ok, raised, authorization_error, not_found_error, service_error,
  data_error, integrity_error,
}
use sardoba_app_server.SyncJobs.{holds_text}
use sardoba_app_server.Models.{
  User, Staff, StaffRole, manager, waiter, CashbackBalance, CashbackTransaction, CashbackSource,
  Table, Database, add_row,
}
use sardoba_app_server.Service.{
  Session, Service, continue, ◌>>=◌, ◌>>◌, pure, raise, lift, query, write, commit, rollback,
  unless,
}
use Notify.{notify_cashback_change}

-- `IikoTransactionType` of app/schemas/iiko.py
pub data TransactionType : Type 0 where
  accrual pay_from_wallet correction refill_wallet refill_wallet_from_order simple_push
        welcome_bonus :
      TransactionType

abbrev is_pay : TransactionType → Bool
is_pay pay_from_wallet = true
is_pay _ = false

abbrev pub is_simple_push : TransactionType → Bool
is_simple_push simple_push = true
is_simple_push _ = false

abbrev pub gift_refill_amount : ℤ
gift_refill_amount = pos 3_500_000

abbrev pub min_cashback_use : ℤ
min_cashback_use = pos 5_000_000

-- DECIMAL(12, 2): at most ten digits before the point.
unfoldable pub fits_decimal : ℤ → Bool
fits_decimal a = ltb (magnitude a) (10 ^ 12)

-- What the callers of `adjust_cashback_balance` pass, but for the user.
pub record Adjustment : Type 0 where
  pub amount : Option ℤ
  pub branch_id : Option ℕ
  pub source : CashbackSource
  pub staff_id : Option ℕ
  pub transaction_type : TransactionType
  pub balance_override : Option ℤ
  pub event_id : Option String
  pub uoc_id : Option String
  pub push_only_notification : Bool

abbrev has_user : ℕ → CashbackBalance → Bool
has_user user_id b = b.user_id == user_id

unfoldable pub find_balance : ℕ → Database → Option CashbackBalance
find_balance user_id db = first (has_user user_id) db.balances

unfoldable pub new_balance : TransactionType → Option ℤ → ℤ → ℤ → ℤ
unfolding ◌+ℤ◌ ◌-ℤ◌
new_balance type (some override) current amount = override
new_balance type none current amount =
    if is_pay type then current -ℤ abs amount else current +ℤ amount

-- iiko_event_id is unique; NULLs never clash.
unfoldable pub event_taken : Option String → Database → Bool
event_taken none db = false
event_taken (some e) db = not (count (λ t. holds_text t.iiko_event_id e) db.transactions.rows == 0)

-- The foreign keys of a transaction: the user has a row, and so has the member of staff if one is given.
unfoldable pub has_references : ℕ → Option ℕ → Database → Bool
has_references user_id none db = is_some (first (λ u. u.id == user_id) db.users.rows)
has_references user_id (some staff_id) db =
    is_some (first (λ u. u.id == user_id) db.users.rows)
    && is_some (first (λ w. w.id == staff_id) db.staff.rows)

-- The constraints that the database checks at the insertion of a transaction.
unfoldable pub insertable : ℕ → Adjustment → Database → Bool
unfolding has_references event_taken
insertable user_id a db = has_references user_id a.staff_id db && not (event_taken a.event_id db)

unfoldable pub set_balance : ℕ → ℤ → Database → Database
set_balance user_id value db = record db {
  balances = update_rows (has_user user_id) (λ b. record b { balance = value }) db.balances;
}

unfoldable pub add_balance : ℕ → Database → Database
add_balance user_id db = record db {
  balances = db.balances ++ record { user_id = user_id; balance = pos 0; points = pos 0 } ∷ [];
}

unfoldable pub new_transaction : Adjustment → ℕ → ℤ → ℤ → ℕ → ℕ → CashbackTransaction
new_transaction a user_id amount after now id = record {
  id = id;
  user_id = user_id;
  staff_id = a.staff_id;
  amount = amount;
  branch_id = a.branch_id;
  source = a.source;
  balance_after = after;
  iiko_event_id = a.event_id;
  iiko_uoc_id = a.uoc_id;
  created_at = now;
}

unfoldable pub add_transaction : (ℕ → CashbackTransaction) → Database → Database
add_transaction make db = record db { transactions = add_row make db.transactions }

-- `amount == -GIFT_REFILL_AMOUNT and not user.giftget`
unfoldable pub redeems_gift : ℤ → User → Bool
redeems_gift amount u = eqb_ℤ amount (neg gift_refill_amount) && not u.giftget

unfoldable pub mark_gift : ℕ → Database → Database
mark_gift user_id db = record db {
  users = record db.users {
    rows = update_rows (λ u. u.id == user_id) (λ u. record u { giftget = true }) db.users.rows;
  };
}

-- The first half of the try block: the balance of the user, made on the spot if there is none.
unfoldable pub ensure_balance : ℕ → Service ℤ
unfolding find_balance add_balance
ensure_balance user_id s = elim (find_balance user_id s.work) [
  | none ↦ (ok (pos 0), record s { work = add_balance user_id s.work })
  | some b ↦ (ok b.balance, s)
]

-- The second half: the flush checks what the columns hold, the foreign keys and that the event is new. A user
-- without a row already fails at the flush of a new balance, with the same exception, caught alike.
unfoldable pub record_change : User → Adjustment → ℤ → ℕ → ℤ → Service CashbackTransaction
unfolding new_balance set_balance insertable fits_decimal new_transaction add_transaction
    redeems_gift mark_gift
record_change user a amount now current = do
  let after = new_balance a.transaction_type a.balance_override current amount
  fits ← query (insertable user.id a)
  unless (fits_decimal after && fits_decimal amount) data_error
  unless fits integrity_error
  id ← query (λ db. db.transactions.next_id)
  write (set_balance user.id after)
  write (add_transaction (new_transaction a user.id amount after now))
  (if redeems_gift amount user then write (mark_gift user.id) else pure tt)
  commit
  pure (new_transaction a user.id amount after now id)

unfoldable pub change_balance : User → Adjustment → ℤ → ℕ → Service CashbackTransaction
unfolding ensure_balance record_change
change_balance user a amount now = do
  current ← ensure_balance user.id
  record_change user a amount now current

-- `except Exception: rollback; return None`, and the notification after a success.
unfoldable pub settle :
    (ℤ → String)
    → User
    → Adjustment
    → ℤ
    → ℕ
    → Outcome CashbackTransaction
    → Service (Option CashbackTransaction)
unfolding notify_cashback_change
settle show_amount user a amount now (raised e) = do rollback; pure none
settle show_amount user a amount now (ok t) = do
  notify_cashback_change show_amount user.id amount (not a.push_only_notification) now
  pure (some t)

unfoldable pub adjust_amount :
    (ℤ → String) → User → Adjustment → ℤ → ℕ → Service (Option CashbackTransaction)
unfolding change_balance settle
adjust_amount show_amount user a amount now s =
    let (r, s') = change_balance user a amount now s in settle show_amount user a amount now r s'

-- Every type but a simple push wants an amount.
abbrev adjust_given :
    (ℤ → String) → User → Adjustment → Option ℤ → ℕ → Service (Option CashbackTransaction)
adjust_given show_amount user a none now = pure none
adjust_given show_amount user a (some amount) now = adjust_amount show_amount user a amount now

unfoldable pub adjust_cashback_balance :
    (ℤ → String) → User → Adjustment → ℕ → Service (Option CashbackTransaction)
unfolding adjust_amount
adjust_cashback_balance show_amount user a now =
    if is_simple_push a.transaction_type
    then pure none
    else adjust_given show_amount user a a.amount now

unfoldable pub find_user : ℕ → Database → Option User
find_user user_id db = first (λ u. u.id == user_id) db.users.rows

abbrev pub is_manager : StaffRole → Bool
is_manager manager = true
is_manager waiter = false

unfoldable pub add_cashback :
    (ℤ → String)
    → Staff
    → ℕ
    → ℤ
    → Option ℕ
    → CashbackSource
    → ℕ
    → Service (Option CashbackTransaction)
unfolding find_user adjust_cashback_balance
add_cashback show_amount actor user_id amount branch_id source now = do
  unless (is_manager actor.role) authorization_error
  found ← query (find_user user_id)
  user ← lift (or_raise found (not_found_error "User not found"))
  adjust_cashback_balance show_amount user
      (record {
        amount = some amount;
        branch_id = branch_id;
        source = source;
        staff_id = some actor.id;
        transaction_type = accrual;
        balance_override = none;
        event_id = none;
        uoc_id = none;
        push_only_notification = false;
      })
      now

-- `user.cashback_balance` of app/models/user.py
unfoldable pub cashback_balance : ℕ → Database → ℤ
unfolding find_balance
cashback_balance user_id db = elim (find_balance user_id db) [ none ↦ pos 0 | some b ↦ b.balance ]

unfoldable pub check_cashback_payment : ℕ → ℤ → Service ℤ
unfolding find_user cashback_balance
check_cashback_payment user_id amount = do
  found ← query (find_user user_id)
  user ← lift (or_raise found (not_found_error "User not found"))
  unless (not (ltb_ℤ amount min_cashback_use))
      (service_error "Cashback payment amount must be at least 50,000 UZS.")
  balance ← query (cashback_balance user.id)
  unless (not (ltb_ℤ balance min_cashback_use))
      (service_error "Cashback balance must be at least 50,000 UZS to pay with cashback.")
  unless (not (ltb_ℤ balance amount)) (service_error "Insufficient cashback balance.")
  pure balance
