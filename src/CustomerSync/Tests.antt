-- ===== src/CustomerSync/Tests.antt =====
-- Runs of the synchronisation against a plain iiko.
pub mod Plain
use sardoba_app_server.Prelude.{
  ◌≡◌, refl, ℕ, true, false, none, some, [], ◌∷◌, count, first, arith, Option,
}
use sardoba_app_server.Prelude.Int.{pos}
use sardoba_app_server.Json.{str, num}
use sardoba_app_server.Failure.{ok, raised, service_error_from, is_service_error, Outcome}
use sardoba_app_server.Samples.{database_of, session_of, sample_user}
use sardoba_app_server.Models.{User}
use sardoba_app_server.Customer.{user_by_id}
use sardoba_app_server.Customer.Profile.{Holds}
use sardoba_app_server.Iiko.{IikoApi, IikoCustomer, Readers, World}
use sardoba_app_server.CustomerSync.{sync_user_from_iiko}
use sardoba_app_server.CustomerSync.Safety.{sync-Holds}
use sardoba_app_server.CustomerSync.Refusals.{FailsWith, sync_refused, sync_lookup_failed}
use Plain.{readers, draws}

abbrev customer : IikoCustomer
customer = record {
  id = some "c-7";
  customer_id = none;
  email = some "ali@mail.uz";
  wallets =
      record {
        id = some "w-7";
        wallet_id = none;
        fields = ("type", num (pos 1)) ∷ ("balance", num (pos 12)) ∷ [];
      }
      ∷ [];
  cards = [];
  fields = ("name", str "Alisher") ∷ ("surname", str "Valiyev") ∷ [];
}

abbrev answering : Outcome (Option IikoCustomer) → IikoApi (Unit {0})
answering answer = record {
  get_customer_by_phone = λ phone r. (answer, r);
  create_or_update_customer = λ phone payload r. (answer, r);
  add_card = λ customer number track r. (ok (some "k-1"), r);
}

abbrev start_with : User → World (Unit {0})
start_with u = record {
  remote = tt;
  session = session_of (database_of (u ∷ []) [] []);
  cards_loaded = none;
}

sync-Holds_example :
    let (r, w') =
      sync_user_from_iiko
        (answering (ok (some customer)))
        readers
        draws
        true
        true
        3
        false
        7
        (start_with sample_user) in
    Holds sample_user w'.session.work.users
unfolding user_by_id first
sync-Holds_example =
    sync-Holds (answering (ok (some customer))) readers draws true true 3 false sample_user
      (start_with sample_user) refl

abbrev deleted_user : User
deleted_user = record sample_user { is_deleted = true }
