-- ===== src/ProfileSync/Tests.antt =====
-- Profile changes while iiko is down.
use sardoba_app_server.Prelude.{refl, none, some, [], ◌∷◌, first}
use sardoba_app_server.Prelude.Dict.{lookup}
use sardoba_app_server.Json.{str, null}
use sardoba_app_server.Failure.{raised, service_error_from, is_service_error}
use sardoba_app_server.Samples.{database_of, session_of, sample_user}
use sardoba_app_server.Customer.{user_by_id}
use sardoba_app_server.Iiko.{IikoApi, World}
use sardoba_app_server.ProfileSync.Pending.{IsDown, Waits, after_all, after_all-Waits}

abbrev down : IikoApi (Unit {0})
down = record {
  get_customer_by_phone = λ phone r. (raised (service_error_from "lock busy" 503), r);
  create_or_update_customer = λ phone payload r. (raised (service_error_from "lock busy" 503), r);
  add_card = λ customer number track r. (raised (service_error_from "lock busy" 503), r);
}

down-IsDown : IsDown down
unfolding is_service_error
down-IsDown phone payload r = (service_error_from "lock busy" 503, refl, refl)

abbrev start : World (Unit {0})
start = record {
  remote = tt;
  session = session_of (database_of (sample_user ∷ []) [] []);
  cards_loaded = none;
}

sample-Waits : Waits 7 "name" none start
unfolding user_by_id first lookup
sample-Waits = (sample_user, refl, refl)

after_all-Waits_example : Waits 7 "name" (some (str "Alisher")) (
    after_all down 7
      ((("name", str "Alijon") ∷ ("email", str "a@b.uz") ∷ [])
        ∷ (("name", str "Alisher") ∷ [])
        ∷ (("name", null) ∷ [])
        ∷ [])
      start)
after_all-Waits_example =
    after_all-Waits down down-IsDown 7 "name"
      ((("name", str "Alijon") ∷ ("email", str "a@b.uz") ∷ [])
        ∷ (("name", str "Alisher") ∷ [])
        ∷ (("name", null) ∷ [])
        ∷ [])
      none start sample-Waits
