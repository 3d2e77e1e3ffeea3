-- ===== src/Cashback/Acceptance.antt =====
-- What the tables of app/models/cashback.py ask of a change of a balance, and what the balance after it is to
-- be.
use text.Mathlib.TextEquality.{eq_iff}
use sardoba_app_server.Prelude.{
  ℕ, ◌≡◌, ◌<◌, ◌^◌, ◌↔◌, refl, ap, String, true, not, Option, none, some, List, [], ◌∷◌, arith, ltb,
  inl, inr, Bool-cases, All, Mem, mem_head, mem_tail, ◌==◌, first, count, is_some,
}
use sardoba_app_server.Prelude.Int.{ℤ, abs, magnitude, ◌+ℤ◌, ◌-ℤ◌}
use sardoba_app_server.Prelude.Unique.{holds_text}
use sardoba_app_server.Models.{User, Staff, CashbackTransaction, Database}
use sardoba_app_server.Cashback.{
  TransactionType, accrual, pay_from_wallet, correction, refill_wallet, refill_wallet_from_order,
  simple_push, welcome_bonus, Adjustment, new_balance, event_taken, insertable, has_references,
  fits_decimal, cashback_balance,
}
use sardoba_app_server.Cashback.Change.{accepted, balance_after}

-- The balance that is given, or else the amount less for a payment and the amount more for the rest.
abbrev pub due_balance : TransactionType → Option ℤ → ℤ → ℤ → ℤ
due_balance type (some given) current amount = given
due_balance pay_from_wallet none current amount = current -ℤ abs amount
due_balance type none current amount = current +ℤ amount

abbrev pub due_after : User → Adjustment → ℤ → Database → ℤ
due_after user a amount db =
    due_balance a.transaction_type a.balance_override (cashback_balance user.id db) amount

new_balance-due :
    (type : TransactionType) (given : Option ℤ) (current amount : ℤ)
    → new_balance type given current amount ≡ due_balance type given current amount
unfolding new_balance
new_balance-due type (some given) current amount = refl
new_balance-due accrual none current amount = refl
new_balance-due pay_from_wallet none current amount = refl
new_balance-due correction none current amount = refl
new_balance-due refill_wallet none current amount = refl
new_balance-due refill_wallet_from_order none current amount = refl
new_balance-due simple_push none current amount = refl
new_balance-due welcome_bonus none current amount = refl

pub balance_after-due :
    (user : User) (a : Adjustment) (amount : ℤ) (db : Database)
    → balance_after user a amount db ≡ due_after user a amount db
balance_after-due user a amount db =
    new_balance-due a.transaction_type a.balance_override (cashback_balance user.id db) amount

-- A member of staff who is given has a row.
abbrev pub HasStaff : Option ℕ → Database → Type 0
HasStaff none db = Unit
HasStaff (some id) db = (w : Staff) × Mem w db.staff.rows × (w.id ≡ id)

-- No transaction has the event.
abbrev pub IsNewEvent : Option String → Database → Type 0
IsNewEvent none db = Unit
IsNewEvent (some e) db = All (λ t. ¬ (t.iiko_event_id ≡ some e)) db.transactions.rows

pub record IsAcceptable (user : User) (a : Adjustment) (amount : ℤ) (db : Database) : Type 0 where
  pub balance_fits : magnitude (due_after user a amount db) < 10 ^ 12
  pub amount_fits : magnitude amount < 10 ^ 12
  pub user_row : (u : User) × Mem u db.users.rows × (u.id ≡ user.id)
  pub staff_row : HasStaff a.staff_id db
  pub event_new : IsNewEvent a.event_id db

module _ {ℓ} {A : Type ℓ} (key : A → ℕ) (n : ℕ) where
  found-Mem :
      (xs : List A) → is_some (first (λ x. key x == n) xs) ≡ true → (x : A) × Mem x xs × (key x ≡ n)
  unfolding first
  found-Mem [] h = cc
  found-Mem (x ∷ xs) h = elim (Bool-cases (key x == n)) [
    | inl e ↦ (x, mem_head refl, ground arith)
    | inr e ↦ let (y, m, k) = found-Mem xs (rw e at h) in (y, mem_tail m, k)
  ]

  Mem-found :
      (xs : List A) (x : A) → Mem x xs → key x ≡ n → is_some (first (λ x. key x == n) xs) ≡ true
  unfolding first
  Mem-found [] x m k = elim m [ ]
  Mem-found (y ∷ xs) x (mem_head e) k =
      let same : (key y == n) ≡ true = ground (arith, ap key e) in rw same refl
  Mem-found (y ∷ xs) x (mem_tail m) k = elim (Bool-cases (key y == n)) [
    | inl e ↦ rw e refl
    | inr e ↦ rw e (Mem-found xs x m k)
  ]

holds_text-some : (v : Option String) (e : String) → (holds_text v e ≡ true) ↔ (v ≡ some e)
holds_text-some none e = (λ h. cc, λ h. cc)
holds_text-some (some t) e =
    (λ h. ap some ((eq_iff t e).0 h), λ h. let same : t ≡ e = cc in (eq_iff t e).1 same)

module _ (e : String) where
  count-IsNew :
      (ts : List CashbackTransaction)
      → ((count (λ t. holds_text t.iiko_event_id e) ts == 0) ≡ true)
        ↔ All (λ t. ¬ (t.iiko_event_id ≡ some e)) ts
  unfolding count
  count-IsNew [] = (λ h. tt, λ h. refl)
  count-IsNew (t ∷ ts) =
      let (forth, back) = count-IsNew ts in
      elim (Bool-cases (holds_text t.iiko_event_id e)) [
        | inl h ↦
            let same = (holds_text-some t.iiko_event_id e).0 h in
            rw h ((λ no. absurd (ground arith)), λ no. absurd (no.0 same))
        | inr h ↦
            let other : ¬ (t.iiko_event_id ≡ some e) =
              λ same. cc (h, (holds_text-some t.iiko_event_id e).1 same) in
            rw h ((λ no. (other, forth (ground arith))), λ no. ground (arith, back no.1))
      ]

HasStaff-iff :
    (user_id : ℕ) (staff : Option ℕ) (db : Database)
    → (has_references user_id staff db ≡ true)
      ↔ (((u : User) × Mem u db.users.rows × (u.id ≡ user_id)) × HasStaff staff db)
unfolding has_references
HasStaff-iff user_id none db = (
  λ h. (found-Mem (λ (u : User). u.id) user_id db.users.rows h, tt),
  λ h. Mem-found (λ (u : User). u.id) user_id db.users.rows h.0.0 h.0.1 h.0.2,
)
HasStaff-iff user_id (some id) db = (
  λ h. (
    found-Mem (λ (u : User). u.id) user_id db.users.rows (ground arith),
    found-Mem (λ (w : Staff). w.id) id db.staff.rows (ground arith),
  ),
  λ h.
      rw
        (
          Mem-found (λ (u : User). u.id) user_id db.users.rows h.0.0 h.0.1 h.0.2,
          Mem-found (λ (w : Staff). w.id) id db.staff.rows h.1.0 h.1.1 h.1.2,
        )
        refl,
)

IsNewEvent-iff :
    (event : Option String) (db : Database)
    → (not (event_taken event db) ≡ true) ↔ IsNewEvent event db
unfolding event_taken
IsNewEvent-iff none db = (λ h. tt, λ h. refl)
IsNewEvent-iff (some e) db =
    let (forth, back) = count-IsNew e db.transactions.rows in
    (λ h. forth (ground arith), λ h. rw (back h) refl)

pub accepted-IsAcceptable :
    (user : User) (a : Adjustment) (amount : ℤ) (db : Database)
    → (accepted user a amount db ≡ true) ↔ IsAcceptable user a amount db
unfolding insertable fits_decimal
accepted-IsAcceptable user a amount db =
    let due = balance_after-due user a amount db in
    let (refer, referred) = HasStaff-iff user.id a.staff_id db in
    let (fresh, freshed) = IsNewEvent-iff a.event_id db in
    (
      λ h.
          let (u, w) = refer (ground arith) in
          let fits : ltb (magnitude (balance_after user a amount db)) (10 ^ 12) ≡ true =
            ground arith in
          let fits_due = rw due at fits in
          record {
            balance_fits = ground arith;
            amount_fits = ground arith;
            user_row = u;
            staff_row = w;
            event_new = fresh (ground arith);
          },
      λ h. ground (
        arith,
        due,
        h.balance_fits,
        h.amount_fits,
        referred (h.user_row, h.staff_row),
        freshed h.event_new,
      ),
    )
