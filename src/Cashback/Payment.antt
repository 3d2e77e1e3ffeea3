-- ===== src/Cashback/Payment.antt =====
-- Paying with cashback: `check_cashback_payment` of app/services/cashback_service.py.
use sardoba_app_server.Prelude.{
  ℕ, ◌≡◌, refl, true, false, some, arith, inl, inr, Bool-cases, Option-cases, ◌==◌, ◌⊎◌,
  first-holds,
}
use sardoba_app_server.Prelude.Int.{ℤ, ◌≤ℤ◌, ltb_ℤ}
use sardoba_app_server.Failure.{or_raise, Failure, Outcome, ok, raised}
use sardoba_app_server.Models.{User, Database}
use sardoba_app_server.Service.{Session}
use sardoba_app_server.Cashback.{
  min_cashback_use, cashback_balance, find_user, check_cashback_payment,
}

-- The user exists, the amount is at least 50,000 and the balance covers it.
abbrev pub Payable : ℕ → ℤ → Database → Type 0
Payable user_id amount db =
    ((u : User) × (find_user user_id db ≡ some u))
    × (min_cashback_use ≤ℤ amount)
    × (amount ≤ℤ cashback_balance user_id db)

found_id : (user_id : ℕ) (db : Database) (u : User) → find_user user_id db ≡ some u → u.id ≡ user_id
unfolding find_user
found_id user_id db u e = let h = first-holds (λ u. u.id == user_id) db.users.rows e in ground arith

not_payable :
    (amount balance : ℤ)
    → (ltb_ℤ amount min_cashback_use ≡ true)
      ⊎ ((ltb_ℤ balance amount ≡ true) ⊎ (ltb_ℤ balance min_cashback_use ≡ true))
    → min_cashback_use ≤ℤ amount
    → ¬ (amount ≤ℤ balance)
not_payable amount balance (inl low) enough covered = ground arith
not_payable amount balance (inr (inl short)) enough covered = ground arith
not_payable amount balance (inr (inr poor)) enough covered = ground arith

at_most : (a b : ℤ) → ltb_ℤ b a ≡ false → a ≤ℤ b
at_most a b h = ground arith

-- The answer, and whether it is the right one.
abbrev pub IsAnswer : ℕ → ℤ → Session → Outcome ℤ × Session → Type 0
IsAnswer user_id amount s r =
    ((r ≡ (ok (cashback_balance user_id s.work), s)) × Payable user_id amount s.work)
    ⊎ ((e : Failure) × (r ≡ (raised e, s)) × ¬ (Payable user_id amount s.work))

-- A payment is granted just where the user exists, the amount is at least 50,000 and the user's balance
-- covers it; the answer is then the balance. The check writes nothing in either case.
pub check_payment_lem :
    (user_id : ℕ) (amount : ℤ) (s : Session)
    → IsAnswer user_id amount s (check_cashback_payment user_id amount s)
unfolding check_cashback_payment
check_payment_lem user_id amount s = elim (Option-cases (find_user user_id s.work)) [
  | inl e ↦ rw (e, or_raise) (inr (_, refl, λ p. cc p.0.1))
  | inr (u, e) ↦
      let b = cashback_balance user_id s.work in
      let u_id = found_id user_id s.work u e in
      elim (Bool-cases (ltb_ℤ amount min_cashback_use)) [
        | inl low ↦ rw (e, u_id, low) (inr (_, refl, λ p. not_payable amount b (inl low) p.1 p.2))
        | inr enough ↦ elim (Bool-cases (ltb_ℤ b min_cashback_use)) [
          | inl poor ↦
              rw (e, u_id, enough, poor)
                (inr (_, refl, λ p. not_payable amount b (inr (inr poor)) p.1 p.2))
          | inr fine ↦ elim (Bool-cases (ltb_ℤ b amount)) [
            | inl short ↦
                rw (e, u_id, enough, fine, short)
                  (inr (_, refl, λ p. not_payable amount b (inr (inl short)) p.1 p.2))
            | inr covered ↦
                rw (e, u_id, enough, fine, covered)
                  (inl (
                    refl,
                    ((_, refl), at_most min_cashback_use amount enough, at_most amount b covered),
                  ))
          ]
        ]
      ]
]
