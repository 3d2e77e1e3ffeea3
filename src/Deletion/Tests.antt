-- ===== src/Deletion/Tests.antt =====
-- Deletions at a concrete database.
use sardoba_app_server.Prelude.{◌≡◌, refl, true, [], ◌∷◌, count}
use sardoba_app_server.Samples.{database_of, sample_user, sample_balance}
use sardoba_app_server.Failure.{ok, raised, service_error}
use sardoba_app_server.Models.{Database}
use sardoba_app_server.Service.{request}
use sardoba_app_server.Deletion.{
  delete_user, prepare_deletion, erase_user, generate_deleted_phone, phone_exists,
}
use sardoba_app_server.Deletion.Gone.{IsGone, delete_user-IsGone}

abbrev shop : Database
shop = database_of (sample_user ∷ []) [] (sample_balance ∷ [])

deletion_runs : (request (delete_user ("+999000000000" ∷ []) 100 true sample_user) shop).0 ≡ ok tt
unfolding delete_user prepare_deletion erase_user generate_deleted_phone phone_exists count
deletion_runs = refl

delete_user-IsGone_example :
    IsGone 7 8 shop (request (delete_user ("+999000000000" ∷ []) 100 true sample_user) shop).1
delete_user-IsGone_example =
    delete_user-IsGone ("+999000000000" ∷ []) 100 true sample_user 8 shop refl deletion_runs

deletion_fails :
    (request (delete_user [] 100 true sample_user) shop).0
    ≡ raised (service_error "Unable to generate unique deleted phone")
unfolding delete_user prepare_deletion generate_deleted_phone
deletion_fails = refl
