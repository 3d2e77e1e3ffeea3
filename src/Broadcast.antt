-- ===== src/Broadcast.antt =====
-- Messages to all clients: app/services/notification_service.py. Whether the database takes the rows
-- of a fan-out is an argument: a user may vanish meanwhile.
pub mod FanOut
mod Tests
use sardoba_app_server.Prelude.{
  ℕ, String, Bool, true, false, not, Option, none, some, List, [], ◌∷◌, ◌++◌, ◌+◌, ◌==◌,
  if◌then◌else◌, first, select, update_rows,
}
use sardoba_app_server.Failure.{or_raise, not_found_error, authorization_error}
use sardoba_app_server.Models.{
  User, Staff, UserNotification, Notification, Table, Database, add_row,
}
use sardoba_app_server.Cashback.{is_manager}
use sardoba_app_server.Cashback.Notify.{NewNotification, notification_row}
use sardoba_app_server.Waiters.{holds_id, set_text}
use sardoba_app_server.Service.{
  Service, ◌>>=◌, ◌>>◌, pure, lift, query, write, unless, commit, rollback,
}

unfoldable pub broadcast_row : String → String → ℕ → ℕ → Notification
broadcast_row title description now id = record {
  id = id;
  title = title;
  description = description;
  created_at = now;
}

unfoldable pub record_for : Notification → ℕ → ℕ → ℕ → UserNotification
unfolding notification_row
record_for n now user_id id =
    notification_row
      (record {
        user_id = user_id;
        notification_id = some n.id;
        title = n.title;
        description = n.description;
        type = none;
        payload = none;
        language = "ru";
      })
      now id

-- One row for each user in the list, with ids from the sequence.
unfoldable pub add_records :
    Notification → ℕ → List User → Table UserNotification → Table UserNotification
unfolding record_for
add_records n now [] t = t
add_records n now (u ∷ us) t = add_records n now us (add_row (record_for n now u.id) t)

unfoldable pub fan_out_to_clients : Bool → Notification → ℕ → Service (Unit {0})
unfolding add_records
fan_out_to_clients accepted n now = do
  write (λ db. record db {
    notifications =
        add_records n now (select (λ u. not u.is_deleted) db.users.rows) db.notifications;
  })
  (if accepted then commit else rollback)

unfoldable pub create_broadcast : Bool → Staff → String → String → ℕ → Service Notification
unfolding broadcast_row fan_out_to_clients
create_broadcast accepted actor title description now = do
  unless (is_manager actor.role) authorization_error
  id ← query (λ db. db.broadcasts.next_id)
  write
      (λ db. record db { broadcasts = add_row (broadcast_row title description now) db.broadcasts })
  commit
  fan_out_to_clients accepted (broadcast_row title description now id) now
  pure (broadcast_row title description now id)

unfoldable pub get_broadcast : ℕ → Service Notification
get_broadcast id = do
  found ← query (λ db. first (λ n. n.id == id) db.broadcasts.rows)
  lift (or_raise found (not_found_error "Notification not found"))

unfoldable pub put_broadcast : Notification → Database → Database
put_broadcast n db = record db {
  broadcasts = record db.broadcasts {
    rows = update_rows (λ m. m.id == n.id) (λ m. n) db.broadcasts.rows;
  };
}

-- The fields that the request sets.
unfoldable pub update_broadcast : Staff → ℕ → Option String → Option String → Service Notification
unfolding get_broadcast put_broadcast
update_broadcast actor id title description = do
  unless (is_manager actor.role) authorization_error
  n ← get_broadcast id
  let n' : Notification = record n {
    title = set_text title n.title;
    description = set_text description n.description;
  }
  write (put_broadcast n')
  commit
  pure n'

unfoldable pub remove_broadcast : ℕ → Database → Database
remove_broadcast id db = record db {
  notifications = record db.notifications {
    rows = select (λ n. not (holds_id n.notification_id id)) db.notifications.rows;
  };
  broadcasts = record db.broadcasts { rows = select (λ n. not (n.id == id)) db.broadcasts.rows };
}

unfoldable pub delete_broadcast : Staff → ℕ → Service (Unit {0})
unfolding get_broadcast remove_broadcast
delete_broadcast actor id = do
  unless (is_manager actor.role) authorization_error
  get_broadcast id
  write (remove_broadcast id)
  commit
