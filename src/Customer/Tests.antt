-- ===== src/Customer/Tests.antt =====
-- Wallets at a concrete table of users.
use sardoba_app_server.Prelude.{◌≡◌, refl, some, [], ◌∷◌, count, first, arith}
use sardoba_app_server.Failure.{ok}
use sardoba_app_server.Samples.{database_of, session_of, sample_user}
use sardoba_app_server.Models.{Database, User}
use sardoba_app_server.Customer.{user_by_id, assign_wallet_to_user}
use sardoba_app_server.Customer.Wallets.{IsUserTable, released?, assign_wallet_to_user_lem}

abbrev holder : User
holder = record sample_user {
  id = 6;
  phone = "+998907654321";
  iiko_wallet_id = some "w-1";
  email = some "vali@mail.uz";
}

abbrev two_users : Database
two_users = database_of (holder ∷ sample_user ∷ []) [] []

two_users-IsUserTable : IsUserTable two_users.users
unfolding count
two_users-IsUserTable = record {
  ids = record { unique = λ n. ground arith; below = (omega arith, (omega arith, tt)) };
  wallets = λ w. ground arith;
  customers = λ c. ground arith;
  emails = λ e. ground arith;
}

assign_wallet_to_user_lem_example :
    let (r, s') = assign_wallet_to_user 7 "w-1" (session_of two_users) in
    (r ≡ ok tt)
    × (user_by_id 7 s'.work ≡ some (record sample_user { iiko_wallet_id = some "w-1" }))
    × (user_by_id 6 s'.work ≡ released? "w-1" (user_by_id 6 two_users))
unfolding user_by_id first
assign_wallet_to_user_lem_example =
    assign_wallet_to_user_lem 7 6 "w-1" sample_user (session_of two_users) two_users-IsUserTable
      refl refl
