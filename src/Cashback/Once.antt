-- ===== src/Cashback/Once.antt =====
-- Redelivered events: the unique event id of app/models/cashback.py and what
-- `adjust_cashback_balance` of app/services/cashback_service.py makes of it.
use sardoba_app_server.Prelude.{
  ℕ, ◌≡◌, refl, ap, String, Bool, true, false, ◌&&◌, none, some, [], ◌∷◌, arith, inl, inr,
}
use sardoba_app_server.Prelude.Int.{ℤ}
use sardoba_app_server.Failure.{ok}
use sardoba_app_server.Models.{User, CashbackTransaction, Database}
use sardoba_app_server.Cashback.{
  Adjustment, event_taken, insertable, has_references, fits_decimal, new_transaction,
  adjust_cashback_balance,
}
use text.Mathlib.TextPositions.{eq_refl}
use sardoba_app_server.Service.{request}
use sardoba_app_server.SyncJobs.{holds_text}
use sardoba_app_server.Prelude.{count}
use sardoba_app_server.Prelude.Selection.{count-append}
use sardoba_app_server.Cashback.Acceptance.{accepted-IsAcceptable}
use sardoba_app_server.Cashback.Adjust.{adjust-Settled, IsApplied}
use sardoba_app_server.Cashback.Change.{accepted, balance_after}

of_event :
    (user_id : ℕ) (a : Adjustment) (amount after : ℤ) (now id : ℕ) (e : String)
    → a.event_id ≡ some e
    → count (λ t. holds_text t.iiko_event_id e) (new_transaction a user_id amount after now id ∷ [])
      ≡ 1
unfolding count new_transaction
of_event user_id a amount after now id e h = rw (h, eq_refl e) refl

-- A transaction of the event is in the table.
pub taken_after :
    (user : User) (a : Adjustment) (amount v : ℤ) (now : ℕ) (before after : Database) (e : String)
    → a.event_id ≡ some e
    → IsApplied user a amount v now before after
    → event_taken (some e) after ≡ true
unfolding event_taken new_transaction
taken_after user a amount v now before after e h applied =
    let p : CashbackTransaction → Bool = λ t. holds_text t.iiko_event_id e in
    let id = before.transactions.next_id in
    let t = new_transaction a user.id amount v now id in
    rw
      (
        ap (λ t. t.rows) applied.logged,
        count-append p before.transactions.rows (t ∷ []),
        of_event user.id a amount v now id e h,
      )
      (ground arith)

none_true : (x y z : Bool) → (x && (y && (z && false))) ≡ false
none_true x y z = ground arith

not_accepted :
    (user : User) (a : Adjustment) (amount : ℤ) (db : Database) (e : String)
    → a.event_id ≡ some e
    → event_taken (some e) db ≡ true
    → accepted user a amount db ≡ false
unfolding insertable
not_accepted user a amount db e h taken =
    rw (h, taken)
      (none_true (fits_decimal (balance_after user a amount db)) (fits_decimal amount)
        (has_references user.id a.staff_id db))

pub refused_again :
    (show_amount : ℤ → String) (user : User) (a : Adjustment) (now : ℕ) (db : Database) (e : String)
    → a.event_id ≡ some e
    → event_taken (some e) db ≡ true
    → request (adjust_cashback_balance show_amount user a now) db ≡ (ok none, db)
refused_again show_amount user a now db e h taken =
    elim (adjust-Settled show_amount user a now (record { work = db; saved = db })) [
      | inl (r, same, why) ↦ rw (r, same) refl
      | inr (amount, given, push, fine, answer, applied) ↦
          let free = (accepted-IsAcceptable user a amount db).1 fine in
          cc (rw (not_accepted user a amount db e h taken) at free)
    ]

-- An event is applied once: after a request that returned a transaction for an event, a request for the
-- same event, whatever its user, type, amount and time, returns nothing and leaves the database as it is.
pub adjust_once :
    (show_amount : ℤ → String) (user user' : User) (a a' : Adjustment) (now now' : ℕ)
    (db : Database) (e : String) (t : CashbackTransaction)
    → a.event_id ≡ some e
    → a'.event_id ≡ some e
    → (request (adjust_cashback_balance show_amount user a now) db).0 ≡ ok (some t)
    → let db' = (request (adjust_cashback_balance show_amount user a now) db).1 in
      request (adjust_cashback_balance show_amount user' a' now') db' ≡ (ok none, db')
adjust_once show_amount user user' a a' now now' db e t h h' r =
    elim (adjust-Settled show_amount user a now (record { work = db; saved = db })) [
      | inl (none_, same, why) ↦ cc
      | inr (amount, given, push, fine, answer, applied) ↦
          refused_again show_amount user' a' now' _ e h'
            (taken_after user a amount _ now db _ e h applied)
    ]
