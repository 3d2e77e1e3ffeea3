-- ===== src/Customer/Keeping.antt =====
-- A property of the users' table that the three kinds of changes to users keep is kept by
-- `_sync_user_with_iiko` of app/services/auth_service.py, whatever it comes to.
use sardoba_app_server.Prelude.{ℕ, String, Option, none, some, List, [], ◌∷◌}
use sardoba_app_server.Prelude.Int.{ℤ}
use sardoba_app_server.Json.{Json}
use sardoba_app_server.Models.{User, CashbackBalance, Table, Database}
use sardoba_app_server.Cards.{IikoCard}
use sardoba_app_server.Cards.Untouched.{ensure_card_from_iiko-keeps}
use sardoba_app_server.Service.Preserves.{
  Preserves, preserves_rules, Preserves-write, Preserves-bind, Preserves-unless,
}
use sardoba_app_server.Service.{unless, write}
use sardoba_app_server.Failure.{data_error}
use sardoba_app_server.Cashback.{fits_decimal}
use sardoba_app_server.Iiko.{IikoWallet, IikoCustomer, Readers}
use sardoba_app_server.Iiko.Reading.{balance_value, target_wallet}
use sardoba_app_server.Customer.{
  assign_customer, assign_wallet, fill_profile, write_balance, store_balance, refresh_balance,
  read_balance, sync_wallet, sync_target, sync_cashback_from_wallets, ensure_cards,
  sync_user_with_iiko, the_user,
}

abbrev pub OfUsers : (Table User → Type 0) → Database → Type 0
OfUsers Q db = Q db.users

-- The changes to users.
pub record IsKept (readers : Readers) (id : ℕ) (Q : Table User → Type 0) : Type 0 where
  pub customer : (c : Option String) → Preserves (OfUsers Q) (assign_customer id c)
  pub wallet : (w : Option String) → Preserves (OfUsers Q) (assign_wallet id w)
  pub profile : (c : IikoCustomer) → Preserves (OfUsers Q) (fill_profile readers id c)

module _ (Q : Table User → Type 0) where
  pub the_user-Preserves : (id : ℕ) → Preserves (OfUsers Q) (the_user id)
  unfolding the_user
  the_user-Preserves id = search preserves_rules

  written-keeps :
      (id : ℕ) (found : Option CashbackBalance) (balance : ℤ) (db : Database)
      → OfUsers Q db
      → OfUsers Q (write_balance id found balance db)
  unfolding write_balance
  written-keeps id none balance db h = h
  written-keeps id (some b) balance db h = h

  store_balance-Preserves :
      (id : ℕ) (found : Option CashbackBalance) (balance : ℤ)
      → Preserves (OfUsers Q) (store_balance id found balance)
  unfolding store_balance
  store_balance-Preserves id found balance =
      Preserves-bind (OfUsers Q) (unless (fits_decimal balance) data_error)
        (λ _. write (write_balance id found balance))
        (Preserves-unless (OfUsers Q) (fits_decimal balance) data_error)
        (λ _.
          Preserves-write (OfUsers Q) (write_balance id found balance)
            (written-keeps id found balance))

  refresh_balance-Preserves :
      (id : ℕ) (balance : Option ℤ) → Preserves (OfUsers Q) (refresh_balance id balance)
  unfolding refresh_balance
  refresh_balance-Preserves id none = search preserves_rules
  refresh_balance-Preserves id (some b) = search (preserves_rules, store_balance-Preserves)

  sync_wallet-Preserves :
      (r : Readers) (id : ℕ) (v : Option Json) → Preserves (OfUsers Q) (sync_wallet r id v)
  unfolding sync_wallet
  sync_wallet-Preserves r id none = search preserves_rules
  sync_wallet-Preserves r id (some v) = refresh_balance-Preserves id (read_balance r v)

  sync_target-Preserves :
      (r : Readers) (id : ℕ) (w : Option IikoWallet) → Preserves (OfUsers Q) (sync_target r id w)
  unfolding sync_target
  sync_target-Preserves r id none = search preserves_rules
  sync_target-Preserves r id (some w) = sync_wallet-Preserves r id (balance_value w.fields)

  pub sync_cashback-Preserves :
      (r : Readers) (id : ℕ) (ws : List IikoWallet)
      → Preserves (OfUsers Q) (sync_cashback_from_wallets r id ws)
  unfolding sync_cashback_from_wallets
  sync_cashback-Preserves r id ws = sync_target-Preserves r id (target_wallet ws)

  ensure_cards-Preserves :
      (id : ℕ) (cs : List IikoCard) → Preserves (OfUsers Q) (ensure_cards id cs)
  unfolding ensure_cards
  ensure_cards-Preserves id [] = search preserves_rules
  ensure_cards-Preserves id (c ∷ cs) =
      let one = ensure_card_from_iiko-keeps (OfUsers Q) (λ db t h. h) id c in
      let rest = ensure_cards-Preserves id cs in search (preserves_rules, one, rest)

  pub sync_user-Preserves :
      (readers : Readers) (id : ℕ) (c : Option IikoCustomer)
      → IsKept readers id Q
      → Preserves (OfUsers Q) (sync_user_with_iiko readers id c)
  unfolding sync_user_with_iiko
  sync_user-Preserves readers id none k = search preserves_rules
  sync_user-Preserves readers id (some c) k =
      search
        (
          preserves_rules, k.customer, k.wallet, k.profile, sync_cashback-Preserves,
          ensure_cards-Preserves,
        )
        depth 15
