-- ===== src/Deletion.antt =====
-- app/services/user_service.py: the deletion of a user, with the cascades of app/models/*.py. The random
-- phones are an argument, ten in the source.
pub mod Gone
mod Tests
use text.Mathlib.Text.{◌==◌ as str_eq}
use sardoba_app_server.Prelude.{
  ℕ, String, Bool, true, false, not, Option, none, some, List, [], ◌∷◌, ◌==◌, if◌then◌else◌, count,
  select, update_rows,
}
use sardoba_app_server.Failure.{service_error}
use sardoba_app_server.SyncJobs.{delete_sync_request, enqueue}
use sardoba_app_server.Models.{User, Table, Database}
use sardoba_app_server.Service.{Service, ◌>>=◌, ◌>>◌, pure, raise, query, write, commit}

unfoldable pub phone_exists : String → Database → Bool
phone_exists phone db = not (count (λ u. str_eq u.phone phone) db.users.rows == 0)

unfoldable pub generate_deleted_phone : List String → Service String
unfolding phone_exists
generate_deleted_phone [] = raise (service_error "Unable to generate unique deleted phone")
generate_deleted_phone (candidate ∷ candidates) = do
  exists ← query (phone_exists candidate)
  (if exists then generate_deleted_phone candidates else pure candidate)

abbrev pub keep {ℓ} : {A : Type ℓ} → (A → Bool) → Table A → Table A
keep p t = record t { rows = select p t.rows }

-- The row, and the rows that go with it by `ON DELETE CASCADE` or the relationship.
unfoldable pub remove_user : ℕ → Database → Database
remove_user id db = record db {
  users = keep (λ u. not (u.id == id)) db.users;
  balances = select (λ b. not (b.user_id == id)) db.balances;
  transactions = keep (λ t. not (t.user_id == id)) db.transactions;
  notifications = keep (λ n. not (n.user_id == id)) db.notifications;
  tokens = keep (λ t. not (t.user_id == id)) db.tokens;
  cards = keep (λ c. not (c.user_id == id)) db.cards;
}

unfoldable pub mark_deleted : ℕ → String → ℕ → Database → Database
mark_deleted id fake_phone now db = record db {
  users = record db.users {
    rows =
        update_rows (λ u. u.id == id)
          (λ u. record u { phone = fake_phone; is_deleted = true; deleted_at = some now })
          db.users.rows;
  };
}

-- The job has the phone that the user had.
unfoldable pub enqueue_deletion : User → ℕ → Database → Database
enqueue_deletion user now db = record db {
  jobs =
      (enqueue
        (delete_sync_request (some user.id) user.phone user.iiko_customer_id user.name
          "user_delete")
        now db.jobs).0;
}

unfoldable pub erase_user : ℕ → Bool → User → String → Service (Unit {0})
unfolding mark_deleted enqueue_deletion remove_user
erase_user now notify user fake_phone = do
  write (mark_deleted user.id fake_phone now)
  (if notify then write (enqueue_deletion user now) else pure tt)
  write (remove_user user.id)

-- What comes before the commit.
unfoldable pub prepare_deletion : List String → ℕ → Bool → User → Service (Unit {0})
unfolding generate_deleted_phone erase_user remove_user
prepare_deletion candidates now notify user =
    if user.is_deleted
    then write (remove_user user.id)
    else (do fake_phone ← generate_deleted_phone candidates; erase_user now notify user fake_phone)

unfoldable pub delete_user : List String → ℕ → Bool → User → Service (Unit {0})
unfolding prepare_deletion
delete_user candidates now notify user = do prepare_deletion candidates now notify user; commit
