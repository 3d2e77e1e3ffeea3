-- ===== src/Cashback/Ledger.antt =====
-- The balances of app/services/cashback_service.py: a change of one leaves the others as they are.
use sardoba_app_server.Prelude.{
  ℕ, ◌≡◌, refl, ap, ◌∙◌, subst, false, Option, none, some, List, [], ◌∷◌, ◌++◌, arith, inl, inr,
  Bool-cases, Option-cases, ◌==◌, if◌then◌else◌, first, update_rows,
}
use sardoba_app_server.Prelude.Int.{ℤ, pos}
use sardoba_app_server.Models.{CashbackBalance, Database}
use sardoba_app_server.Cashback.{has_user, find_balance, set_balance, add_balance, cashback_balance}

-- Where a user has no row, one with a balance of zero is made.
abbrev pub ensured : ℕ → Database → Database
ensured user_id db = elim (find_balance user_id db) [ none ↦ add_balance user_id db | some b ↦ db ]

first-update_self :
    (u : ℕ) (v : ℤ) (bs : List CashbackBalance) (b : CashbackBalance)
    → first (has_user u) bs ≡ some b
    → first (has_user u) (update_rows (has_user u) (λ b. record b { balance = v }) bs)
      ≡ some (record b { balance = v })
unfolding first update_rows
first-update_self u v [] b e = cc
first-update_self u v (c ∷ bs) b e = ground (arith, first-update_self u v bs b)

first-update_other :
    (u j : ℕ) (v : ℤ) (bs : List CashbackBalance)
    → (u == j) ≡ false
    → first (has_user j) (update_rows (has_user u) (λ b. record b { balance = v }) bs)
      ≡ first (has_user j) bs
unfolding first update_rows
first-update_other u j v [] h = refl
first-update_other u j v (c ∷ bs) h = ground (arith, first-update_other u j v bs)

-- The amount of a balance that was looked up.
abbrev amount_of : Option CashbackBalance → ℤ
amount_of found = elim found [ none ↦ pos 0 | some b ↦ b.balance ]

balance-ensured_some :
    (u j : ℕ) (v : ℤ) (db : Database) (b : CashbackBalance)
    → find_balance u db ≡ some b
    → cashback_balance j (set_balance u v db) ≡ (if u == j then v else cashback_balance j db)
unfolding cashback_balance set_balance find_balance
balance-ensured_some u j v db b e = elim (Bool-cases (u == j)) [
  | inl h ↦
      let same : u ≡ j = ground arith in
      rw h (
        subst
          (λ k.
            amount_of (
              first (has_user k)
                (update_rows (has_user u) (λ b. record b { balance = v }) db.balances))
            ≡ v)
          same (ap amount_of (first-update_self u v db.balances b e)))
  | inr h ↦ rw h (ap amount_of (first-update_other u j v db.balances h))
]

made :
    (u : ℕ) (bs : List CashbackBalance)
    → first (has_user u) bs ≡ none
    → first (has_user u) (bs ++ record { user_id = u; balance = pos 0; points = pos 0 } ∷ [])
      ≡ some (record { user_id = u; balance = pos 0; points = pos 0 })
unfolding first
made u [] e = ground arith
made u (c ∷ bs) e = ground (arith, made u bs)

append_other :
    (u j : ℕ) (bs : List CashbackBalance)
    → (u == j) ≡ false
    → first (has_user j) (bs ++ record { user_id = u; balance = pos 0; points = pos 0 } ∷ [])
      ≡ first (has_user j) bs
unfolding first
append_other u j [] h = rw h refl
append_other u j (c ∷ bs) h = ground (arith, append_other u j bs)

balance-add_balance_other :
    (u j : ℕ) (db : Database)
    → (u == j) ≡ false
    → cashback_balance j (add_balance u db) ≡ cashback_balance j db
unfolding cashback_balance find_balance add_balance
balance-add_balance_other u j db h = ap amount_of (append_other u j db.balances h)

find-add_balance :
    (u : ℕ) (db : Database)
    → find_balance u db ≡ none
    → find_balance u (add_balance u db)
      ≡ some (record { user_id = u; balance = pos 0; points = pos 0 })
unfolding find_balance add_balance
find-add_balance u db e = made u db.balances e

-- The balance of every user after the balance of one is set.
pub balance-set_balance :
    (u j : ℕ) (v : ℤ) (db : Database)
    → cashback_balance j (set_balance u v (ensured u db))
      ≡ (if u == j then v else cashback_balance j db)
balance-set_balance u j v db = elim (Option-cases (find_balance u db)) [
  | inl e ↦
      rw (e, ensured)
        (balance-ensured_some u j v (add_balance u db) _ (find-add_balance u db e)
          ∙ elim (Bool-cases (u == j)) [
            | inl h ↦ rw h refl
            | inr h ↦ rw h (balance-add_balance_other u j db h)
          ])
  | inr (b, e) ↦ rw (e, ensured) (balance-ensured_some u j v db b e)
]
