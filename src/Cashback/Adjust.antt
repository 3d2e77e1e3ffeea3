-- ===== src/Cashback/Adjust.antt =====
-- What `adjust_cashback_balance` of app/services/cashback_service.py commits.
use sardoba_app_server.Prelude.{
  ℕ, ◌≡◌, refl, ap, subst, ◌∙◌, String, Bool, true, false, not, Option, none, some, inl, inr, ◌⊎◌,
  Bool-cases, ◌==◌, if◌then◌else◌, first,
}
use sardoba_app_server.Prelude.Int.{ℤ, pos}
use sardoba_app_server.Failure.{Outcome, ok}
use sardoba_app_server.Models.{User, CashbackTransaction, Database}
use sardoba_app_server.Service.{Session}
use sardoba_app_server.Cashback.{
  Adjustment, is_simple_push, has_user, find_balance, set_balance, new_transaction, add_transaction,
  redeems_gift, mark_gift, settle, adjust_amount, adjust_cashback_balance, cashback_balance,
}
use sardoba_app_server.Models.{add_row}
use sardoba_app_server.Service.{pure}
use sardoba_app_server.Cashback.{adjust_given}
use sardoba_app_server.Cashback.Ledger.{ensured, balance-set_balance}
use sardoba_app_server.Cashback.Acceptance.{
  due_after, balance_after-due, IsAcceptable, accepted-IsAcceptable,
}
use sardoba_app_server.Cashback.Change.{
  accepted, balance_after, committed, ledger, change_accepted, change_refused, notify-ledger,
  transactions-ensured,
}

-- The transaction of an adjustment, and the balances after it.
pub record IsApplied (user : User) (a : Adjustment) (amount balance : ℤ) (now : ℕ)
    (before after : Database) : Type 0 where
  pub logged :
      after.transactions
      ≡ add_row (new_transaction a user.id amount balance now) before.transactions
  pub balances :
      (j : ℕ)
      → cashback_balance j after ≡ (if user.id == j then balance else cashback_balance j before)

balance-ledger :
    (j : ℕ) (db db' : Database)
    → ledger db ≡ ledger db'
    → cashback_balance j db ≡ cashback_balance j db'
unfolding cashback_balance find_balance
balance-ledger j db db' e =
    ap (λ l. elim (first (has_user j) l.0) as (λ x. ℤ) [ none ↦ pos 0 | some b ↦ b.balance ]) e

committed-ledger :
    (user : User) (a : Adjustment) (amount : ℤ) (now : ℕ) (after : ℤ) (db : Database)
    → ledger (committed user a amount now after db) ≡ (
      (set_balance user.id after (ensured user.id db)).balances,
      add_row (new_transaction a user.id amount after now) (ensured user.id db).transactions,
    )
unfolding mark_gift add_transaction set_balance
committed-ledger user a amount now after db = elim (Bool-cases (redeems_gift amount user)) [
  | inl e ↦ rw e refl
  | inr e ↦ rw e refl
]

committed-IsApplied :
    (user : User) (a : Adjustment) (amount : ℤ) (now : ℕ) (db after : Database)
    → ledger after ≡ ledger (committed user a amount now (balance_after user a amount db) db)
    → IsApplied user a amount (balance_after user a amount db) now db after
unfolding set_balance cashback_balance
committed-IsApplied user a amount now db after e =
    let v = balance_after user a amount db in
    let e' = e ∙ committed-ledger user a amount now v db in
    record {
      logged =
          ap (λ l. l.1) e'
          ∙ ap (add_row (new_transaction a user.id amount v now)) (transactions-ensured user.id db);
      balances = λ j.
          balance-ledger j after
            (record (set_balance user.id v (ensured user.id db)) {
              transactions = after.transactions;
            })
            (ap (λ l. (l.0, after.transactions)) e')
          ∙ balance-set_balance user.id j v db;
    }

-- A change that the tables accept.
adjust_accepted :
    (show_amount : ℤ → String) (user : User) (a : Adjustment) (amount : ℤ) (now : ℕ) (s : Session)
    → accepted user a amount s.work ≡ true
    → let t =
        new_transaction a user.id amount
          (balance_after user a amount s.work)
          now
          s.work.transactions.next_id in
      let (r, s') = adjust_amount show_amount user a amount now s in
      (r ≡ ok (some t))
      × IsApplied user a amount (balance_after user a amount s.work) now s.work s'.saved
unfolding adjust_amount settle
adjust_accepted show_amount user a amount now s h =
    let v = balance_after user a amount s.work in
    let db = committed user a amount now v s.work in
    let (r, e) = notify-ledger show_amount user.id amount (not a.push_only_notification) now db in
    rw (change_accepted user a amount now s h, r)
      (refl, committed-IsApplied user a amount now s.work _ e)

adjust_refused :
    (show_amount : ℤ → String) (user : User) (a : Adjustment) (amount : ℤ) (now : ℕ) (s : Session)
    → accepted user a amount s.work ≡ false
    → adjust_amount show_amount user a amount now s
      ≡ (ok none, record { work = s.saved; saved = s.saved })
unfolding adjust_amount settle
adjust_refused show_amount user a amount now s h =
    let (e, c) = change_refused user a amount now s h in rw c refl

-- Why an adjustment is refused: a simple push, no amount, or what the tables do not take.
abbrev pub Refused : User → Adjustment → Database → Type 0
Refused user a work =
    (is_simple_push a.transaction_type ≡ true)
    ⊎ ((a.amount ≡ none)
        ⊎ ((amount : ℤ) × (a.amount ≡ some amount) × (¬ IsAcceptable user a amount work)))

-- What an adjustment may come to: nothing is committed and nothing returned, or the change is.
abbrev pub Settled :
    User
    → Adjustment
    → ℕ
    → Database
    → Database
    → Outcome (Option CashbackTransaction)
    → Database
    → Type 0
Settled user a now work saved r saved' =
    ((r ≡ ok none) × (saved' ≡ saved) × Refused user a work)
    ⊎ ((amount : ℤ) × (a.amount ≡ some amount)
        × (is_simple_push a.transaction_type ≡ false)
        × IsAcceptable user a amount work
        × (r
            ≡ ok (
                some (
                  new_transaction a user.id amount (due_after user a amount work) now
                    work.transactions.next_id)))
        × IsApplied user a amount (due_after user a amount work) now work saved')

adjust_amount-Settled :
    (show_amount : ℤ → String) (user : User) (a : Adjustment) (amount : ℤ) (now : ℕ) (s : Session)
    → a.amount ≡ some amount
    → is_simple_push a.transaction_type ≡ false
    → let (r, s') = adjust_amount show_amount user a amount now s in
      Settled user a now s.work s.saved r s'.saved
adjust_amount-Settled show_amount user a amount now s given push =
    let taken = accepted-IsAcceptable user a amount s.work in
    elim (Bool-cases (accepted user a amount s.work)) [
      | inl h ↦
          let (r, s') = adjust_amount show_amount user a amount now s in
          let (returned, applied) =
            subst
              (λ v.
                (r ≡ ok (some (new_transaction a user.id amount v now s.work.transactions.next_id)))
                × IsApplied user a amount v now s.work s'.saved)
              (balance_after-due user a amount s.work)
              (adjust_accepted show_amount user a amount now s h) in
          inr (amount, given, push, taken.0 h, returned, applied)
      | inr h ↦
          let refused = adjust_refused show_amount user a amount now s h in
          let refusal : ¬ IsAcceptable user a amount s.work = λ t. cc (h, taken.1 t) in
          inl
            (ap (λ x. x.0) refused, ap (λ x. x.1.saved) refused, inr (inr (amount, given, refusal)))
    ]

given-Settled :
    (show_amount : ℤ → String) (user : User) (a : Adjustment) (given : Option ℤ) (now : ℕ)
    (s : Session)
    → a.amount ≡ given
    → is_simple_push a.transaction_type ≡ false
    → let (r, s') = adjust_given show_amount user a given now s in
      Settled user a now s.work s.saved r s'.saved
given-Settled show_amount user a none now s e push = inl (refl, refl, inr (inl e))
given-Settled show_amount user a (some amount) now s e push =
    adjust_amount-Settled show_amount user a amount now s e push

typed-Settled :
    (show_amount : ℤ → String) (user : User) (a : Adjustment) (push : Bool) (now : ℕ) (s : Session)
    → is_simple_push a.transaction_type ≡ push
    → let (r, s') = (if push then pure none else adjust_given show_amount user a a.amount now) s in
      Settled user a now s.work s.saved r s'.saved
typed-Settled show_amount user a true now s e = inl (refl, refl, inl e)
typed-Settled show_amount user a false now s e =
    given-Settled show_amount user a a.amount now s refl e

-- An adjustment never raises. For a simple push, without an amount, where the columns do not hold the new
-- balance or the amount, where the user or the given member of staff has no row, and where the event already
-- has a transaction, it returns nothing and leaves the committed database as it was. In every other case it
-- returns the transaction, one transaction is committed, with the balance after it, that balance is the
-- user's and no other user's balance changes. The balance after it is the one that is given, and otherwise
-- less by the amount for a payment and more by it for the other types.
pub adjust-Settled :
    (show_amount : ℤ → String) (user : User) (a : Adjustment) (now : ℕ) (s : Session)
    → let (r, s') = adjust_cashback_balance show_amount user a now s in
      Settled user a now s.work s.saved r s'.saved
unfolding adjust_cashback_balance
adjust-Settled show_amount user a now s =
    typed-Settled show_amount user a (is_simple_push a.transaction_type) now s refl
