-- ===== src/Cashback/Change.antt =====
-- The try block of `adjust_cashback_balance` of app/services/cashback_service.py: what is committed
-- where the constraints of the tables are met, and what is raised where they are not.
use sardoba_app_server.Prelude.{
  ℕ, ◌≡◌, refl, ap, ◌∙◌, String, Bool, true, false, not, ◌&&◌, Option, none, some, List, arith, inl,
  inr, Bool-cases, Option-cases, if◌then◌else◌,
}
use sardoba_app_server.Prelude.Int.{ℤ, pos, eqb_ℤ}
use sardoba_app_server.Failure.{Failure, ok, raised, data_error, integrity_error}
use sardoba_app_server.Models.{User, CashbackBalance, CashbackTransaction, Table, Database}
use sardoba_app_server.Service.{Session}
use sardoba_app_server.Cashback.{
  Adjustment, find_balance, new_balance, set_balance, add_balance, event_taken, insertable,
  has_references, fits_decimal, new_transaction, add_transaction, redeems_gift, mark_gift,
  ensure_balance, record_change, change_balance, cashback_balance,
}
use sardoba_app_server.Cashback.Notify.{notify_cashback_change, create_notification}
use sardoba_app_server.Cashback.Ledger.{ensured}

-- The balance after the change.
abbrev pub balance_after : User → Adjustment → ℤ → Database → ℤ
balance_after user a amount db =
    new_balance a.transaction_type a.balance_override (cashback_balance user.id db) amount

-- What the constraints of the tables ask of a change: numbers that the columns hold, a user and a
-- member of staff that have rows, and an event that has no transaction yet.
abbrev pub accepted : User → Adjustment → ℤ → Database → Bool
accepted user a amount db =
    fits_decimal (balance_after user a amount db)
    && (fits_decimal amount && insertable user.id a db)

abbrev pub with_change : User → Adjustment → ℤ → ℕ → ℤ → Database → Database
with_change user a amount now after db =
    add_transaction (new_transaction a user.id amount after now)
      (set_balance user.id after (ensured user.id db))

abbrev pub committed : User → Adjustment → ℤ → ℕ → ℤ → Database → Database
committed user a amount now after db =
    if redeems_gift amount user
    then mark_gift user.id (with_change user a amount now after db)
    else with_change user a amount now after db

three_true : (x y z : Bool) → (x && (y && z)) ≡ true → (x ≡ true) × (y ≡ true) × (z ≡ true)
three_true x y z h = (ground arith, ground arith, ground arith)

record_accepted :
    (user : User) (a : Adjustment) (amount : ℤ) (now : ℕ) (current : ℤ) (s : Session)
    → let after = new_balance a.transaction_type a.balance_override current amount in
      (fits_decimal after && (fits_decimal amount && insertable user.id a s.work)) ≡ true
      → let t = new_transaction a user.id amount after now in
        let db = add_transaction t (set_balance user.id after s.work) in
        let db' = (if redeems_gift amount user then mark_gift user.id db else db) in
        record_change user a amount now current s
        ≡ (ok (t s.work.transactions.next_id), record { work = db'; saved = db' })
unfolding record_change
record_accepted user a amount now current s h =
    let after = new_balance a.transaction_type a.balance_override current amount in
    let (f, g, t) =
      three_true (fits_decimal after) (fits_decimal amount) (insertable user.id a s.work) h in
    elim (Bool-cases (redeems_gift amount user)) [
      | inl gift ↦ rw (f, g, t, gift) refl
      | inr gift ↦ rw (f, g, t, gift) refl
    ]

record_refused :
    (user : User) (a : Adjustment) (amount : ℤ) (now : ℕ) (current : ℤ) (s : Session)
    → let after = new_balance a.transaction_type a.balance_override current amount in
      (fits_decimal after && (fits_decimal amount && insertable user.id a s.work)) ≡ false
      → (e : Failure) × (record_change user a amount now current s ≡ (raised e, s))
unfolding record_change
record_refused user a amount now current s h =
    let after = new_balance a.transaction_type a.balance_override current amount in
    elim (Bool-cases (fits_decimal after)) [
      | inl f ↦ elim (Bool-cases (fits_decimal amount)) [
        | inl g ↦ elim (Bool-cases (insertable user.id a s.work)) [
          | inr t ↦ (integrity_error, rw (f, g, t) refl)
          | inl t ↦ cc (rw (f, g, t) at h)
        ]
        | inr g ↦ (data_error, rw (f, g) refl)
      ]
      | inr f ↦ (data_error, rw f refl)
    ]

ensure_balance-eq :
    (user_id : ℕ) (s : Session)
    → ensure_balance user_id s
      ≡ (ok (cashback_balance user_id s.work), record s { work = ensured user_id s.work })
unfolding ensure_balance cashback_balance
ensure_balance-eq user_id s = elim (Option-cases (find_balance user_id s.work)) [
  | inl e ↦ rw (e, ensured, ensure_balance, cashback_balance) refl
  | inr (b, e) ↦ rw (e, ensured, ensure_balance, cashback_balance) refl
]

references-add_balance :
    (user_id : ℕ) (staff_id : Option ℕ) (db : Database)
    → has_references user_id staff_id (add_balance user_id db) ≡ has_references user_id staff_id db
unfolding has_references add_balance
references-add_balance user_id none db = refl
references-add_balance user_id (some staff_id) db = refl

taken-add_balance :
    (event : Option String) (user_id : ℕ) (db : Database)
    → event_taken event (add_balance user_id db) ≡ event_taken event db
unfolding event_taken add_balance
taken-add_balance none user_id db = refl
taken-add_balance (some e) user_id db = refl

insertable-add_balance :
    (a : Adjustment) (user_id : ℕ) (db : Database)
    → insertable user_id a (add_balance user_id db) ≡ insertable user_id a db
unfolding insertable add_balance
insertable-add_balance a user_id db =
    ap (λ x. x && not (event_taken a.event_id (add_balance user_id db)))
      (references-add_balance user_id a.staff_id db)
    ∙ ap (λ x. has_references user_id a.staff_id db && not x)
        (taken-add_balance a.event_id user_id db)

insertable-ensured :
    (a : Adjustment) (user_id : ℕ) (db : Database)
    → insertable user_id a (ensured user_id db) ≡ insertable user_id a db
unfolding insertable add_balance
insertable-ensured a user_id db = elim (Option-cases (find_balance user_id db)) [
  | inl f ↦ rw (f, ensured) (insertable-add_balance a user_id db)
  | inr (b, f) ↦ rw (f, ensured) refl
]

pub transactions-ensured :
    (user_id : ℕ) (db : Database) → (ensured user_id db).transactions ≡ db.transactions
unfolding add_balance
transactions-ensured user_id db = elim (Option-cases (find_balance user_id db)) [
  | inl f ↦ rw (f, ensured) refl
  | inr (b, f) ↦ rw (f, ensured) refl
]

pub change_accepted :
    (user : User) (a : Adjustment) (amount : ℤ) (now : ℕ) (s : Session)
    → accepted user a amount s.work ≡ true
    → let after = balance_after user a amount s.work in
      let db = committed user a amount now after s.work in
      change_balance user a amount now s ≡ (
        ok (new_transaction a user.id amount after now s.work.transactions.next_id),
        record { work = db; saved = db },
      )
unfolding change_balance
change_accepted user a amount now s h =
    let after = balance_after user a amount s.work in
    let db = committed user a amount now after s.work in
    let s' : Session = record { work = db; saved = db } in
    rw (ensure_balance-eq user.id s) (
      record_accepted user a amount now (cashback_balance user.id s.work)
        (record s { work = ensured user.id s.work }) (rw (insertable-ensured a user.id s.work) h)
      ∙ ap (λ t. (ok (new_transaction a user.id amount after now t.next_id), s'))
          (transactions-ensured user.id s.work))

pub change_refused :
    (user : User) (a : Adjustment) (amount : ℤ) (now : ℕ) (s : Session)
    → accepted user a amount s.work ≡ false
    → (e : Failure) × (change_balance user a amount now s
        ≡ (raised e, record s { work = ensured user.id s.work }))
unfolding change_balance
change_refused user a amount now s h = rw (ensure_balance-eq user.id s) (
    record_refused user a amount now (cashback_balance user.id s.work)
      (record s { work = ensured user.id s.work }) (rw (insertable-ensured a user.id s.work) h))

-- The ledger of a database: what a notification leaves alone.
abbrev pub ledger : Database → List CashbackBalance × Table CashbackTransaction
ledger db = (db.balances, db.transactions)

pub notify-ledger :
    (show_amount : ℤ → String) (user_id : ℕ) (amount : ℤ) (persist : Bool) (now : ℕ) (db : Database)
    → let (r, s) =
        notify_cashback_change show_amount user_id amount persist now
          (record { work = db; saved = db }) in
      (r ≡ ok tt) × (ledger s.saved ≡ ledger db)
unfolding notify_cashback_change create_notification
notify-ledger show_amount user_id amount true now db = elim (Bool-cases (eqb_ℤ amount (pos 0))) [
  | inl e ↦ rw e (refl, refl)
  | inr e ↦ rw e (refl, refl)
]
notify-ledger show_amount user_id amount false now db = elim (Bool-cases (eqb_ℤ amount (pos 0))) [
  | inl e ↦ rw e (refl, refl)
  | inr e ↦ rw e (refl, refl)
]
