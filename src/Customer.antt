-- ===== src/Customer.antt =====
-- Taking a customer of iiko over into a user: `_sync_user_with_iiko`, `_sync_cashback_from_wallets`
-- and `_assign_wallet_to_user` of app/services/auth_service.py. A user is named by its id: the
-- functions read and write the row in the session.
pub mod Keeping
pub mod Wallets
pub mod Profile
mod Tests
use text.Mathlib.Text.{◌==◌ as str_eq}
use sardoba_app_server.Prelude.{
  ℕ, String, Bool, true, false, not, ◌&&◌, ◌||◌, Option, none, some, List, [], ◌∷◌, ◌++◌, ◌==◌,
  if◌then◌else◌, first, count, update_rows,
}
use sardoba_app_server.Prelude.Int.{ℤ, pos, eqb_ℤ}
use sardoba_app_server.Prelude.Dict.{Dict}
use sardoba_app_server.Json.{Json}
use sardoba_app_server.Failure.{or_raise, runtime_error, integrity_error, data_error}
use sardoba_app_server.Models.{User, CashbackBalance, Database, Table}
use sardoba_app_server.SyncJobs.{holds_text}
use sardoba_app_server.Otp.{truthy}
use sardoba_app_server.Auth.{put_user}
use sardoba_app_server.Cashback.{find_balance, set_balance, fits_decimal}
use sardoba_app_server.Cards.{IikoCard, or_text, ensure_card_from_iiko}
use sardoba_app_server.Iiko.{IikoWallet, IikoCustomer, Readers}
use sardoba_app_server.Iiko.Reading.{
  value_of, or_value, extract_iiko_string, compose_iiko_name, parse_iiko_birthday, map_iiko_sex,
  extract_wallet_id, target_wallet, balance_value,
}
use sardoba_app_server.Service.{Service, ◌>>=◌, ◌>>◌, pure, lift, query, write, unless}

unfoldable pub user_by_id : ℕ → Database → Option User
user_by_id id db = first (λ u. u.id == id) db.users.rows

-- The row behind the user object.
unfoldable pub the_user : ℕ → Service User
unfolding user_by_id
the_user id = do
  found ← query (user_by_id id)
  lift (or_raise found (runtime_error "the row of the user is gone"))

abbrev pub others : (User → Option String) → User → Option String → Database → ℕ
others column u none db = 0
others column u (some t) db =
    count (λ v. holds_text (column v) t && not (v.id == u.id)) db.users.rows

-- Some other user has the same text in a unique column.
unfoldable pub user_conflict : User → Database → Bool
user_conflict u db =
    not (others (λ v. v.iiko_wallet_id) u u.iiko_wallet_id db == 0)
    || (not (others (λ v. v.iiko_customer_id) u u.iiko_customer_id db == 0)
        || not (others (λ v. v.email) u u.email db == 0))

-- The flush of the changed row, with its unique columns.
unfoldable pub save_user : User → Service (Unit {0})
unfolding user_conflict
save_user u = do
  conflict ← query (user_conflict u)
  unless (not conflict) integrity_error
  write (put_user u)

unfoldable pub free_wallet : String → ℕ → Database → Database
free_wallet wallet_id id db = record db {
  users = record db.users {
    rows =
        update_rows (λ v. holds_text v.iiko_wallet_id wallet_id && not (v.id == id))
          (λ v. record v { iiko_wallet_id = none }) db.users.rows;
  };
}

-- The column is unique, so that there is one conflicting user at most.
unfoldable pub assign_wallet_to_user : ℕ → String → Service (Unit {0})
unfolding the_user free_wallet save_user
assign_wallet_to_user id wallet_id = do
  write (free_wallet wallet_id id)
  u ← the_user id
  save_user (record u { iiko_wallet_id = some wallet_id })

abbrev pub fill : Option String → Option String → Option String
fill old new = if truthy new && not (truthy old) then new else old

abbrev pub fill_date : Option ℕ → Option ℕ → Option ℕ
fill_date none new = new
fill_date (some d) new = some d

-- What the user has is kept; gaps are filled in.
unfoldable pub filled_profile : Readers → IikoCustomer → User → User
unfolding value_of or_value extract_iiko_string compose_iiko_name parse_iiko_birthday map_iiko_sex
filled_profile r c u = record u {
  middle_name =
      fill u.middle_name (extract_iiko_string ("middleName" ∷ "middle_name" ∷ []) c.fields);
  surname =
      fill u.surname (extract_iiko_string ("surname" ∷ "lastName" ∷ "familyName" ∷ []) c.fields);
  name = fill u.name (compose_iiko_name c.fields);
  date_of_birth = fill_date u.date_of_birth (parse_iiko_birthday r (value_of "birthday" c.fields));
  gender =
      fill u.gender
        (map_iiko_sex r (or_value (value_of "sex" c.fields) (value_of "gender" c.fields)));
  email = fill u.email c.email;
}

-- What came of the cashback: whether the balance changed, and the issue that kept it from a refresh.
pub record CashbackSync : Type 0 where
  pub changed : Bool
  pub issue : Option String

abbrev pub issue_of : String → CashbackSync
issue_of code = record { changed = false; issue = some code }

abbrev balance_of : Option CashbackBalance → Option ℤ
balance_of none = none
balance_of (some b) = some b.balance

abbrev pub differs : Option ℤ → ℤ → Bool
differs none new = true
differs (some old) new = not (eqb_ℤ new old)

new_wallet : ℕ → ℤ → Database → Database
new_wallet id balance db = record db {
  balances = db.balances ++ record { user_id = id; balance = balance; points = pos 0 } ∷ [];
}

unfoldable pub write_balance : ℕ → Option CashbackBalance → ℤ → Database → Database
unfolding set_balance new_wallet
write_balance id none balance db = new_wallet id balance db
write_balance id (some b) balance db = set_balance id balance db

unfoldable pub store_balance : ℕ → Option CashbackBalance → ℤ → Service (Unit {0})
unfolding fits_decimal
store_balance id found balance = do
  unless (fits_decimal balance) data_error
  write (write_balance id found balance)

unfoldable pub refresh_balance : ℕ → Option ℤ → Service CashbackSync
unfolding find_balance store_balance
refresh_balance id none = pure (issue_of "balance_parse_error")
refresh_balance id (some balance) = do
  found ← query (find_balance id)
  store_balance id found balance
  pure (record { changed = differs (balance_of found) balance; issue = none })

abbrev pub read_balance : Readers → Json → Option ℤ
read_balance r v = r.decimal (r.str_of v)

unfoldable pub sync_wallet : Readers → ℕ → Option Json → Service CashbackSync
unfolding refresh_balance
sync_wallet r id none = pure (issue_of "balance_missing")
sync_wallet r id (some v) = refresh_balance id (read_balance r v)

unfoldable pub sync_target : Readers → ℕ → Option IikoWallet → Service CashbackSync
unfolding balance_value sync_wallet
sync_target r id none = pure (issue_of "wallets_empty")
sync_target r id (some w) = sync_wallet r id (balance_value w.fields)

unfoldable pub sync_cashback_from_wallets : Readers → ℕ → List IikoWallet → Service CashbackSync
unfolding target_wallet sync_target
sync_cashback_from_wallets r id wallets = sync_target r id (target_wallet wallets)

unfoldable pub ensure_cards : ℕ → List IikoCard → Service (Unit {0})
unfolding ensure_card_from_iiko
ensure_cards id [] = pure tt
ensure_cards id (c ∷ cs) = do ensure_card_from_iiko id c; ensure_cards id cs

unfoldable pub assign_customer : ℕ → Option String → Service (Unit {0})
unfolding the_user save_user
assign_customer id none = pure tt
assign_customer id (some customer_id) =
    if str_eq customer_id ""
    then pure tt
    else (do u ← the_user id; save_user (record u { iiko_customer_id = some customer_id }))

unfoldable pub assign_wallet : ℕ → Option String → Service (Unit {0})
unfolding assign_wallet_to_user
assign_wallet id none = pure tt
assign_wallet id (some wallet_id) = assign_wallet_to_user id wallet_id

unfoldable pub fill_profile : Readers → ℕ → IikoCustomer → Service (Unit {0})
unfolding the_user filled_profile save_user
fill_profile r id c = do u ← the_user id; save_user (filled_profile r c u)

unfoldable pub sync_user_with_iiko : Readers → ℕ → Option IikoCustomer → Service CashbackSync
unfolding assign_customer assign_wallet extract_wallet_id fill_profile sync_cashback_from_wallets
    ensure_cards
sync_user_with_iiko r id none = pure (issue_of "empty_payload")
sync_user_with_iiko r id (some c) = do
  assign_customer id (or_text c.id c.customer_id)
  assign_wallet id (extract_wallet_id c.wallets)
  fill_profile r id c
  result ← sync_cashback_from_wallets r id c.wallets
  ensure_cards id c.cards
  pure result
