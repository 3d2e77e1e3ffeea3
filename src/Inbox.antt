-- ===== src/Inbox.antt =====
-- A user's notifications: app/services/user_notification_service.py, and the device tokens of
-- app/services/notification_token_service.py.
pub mod Unread
mod Tests
use text.Mathlib.Text.{◌==◌ as str_eq}
use sardoba_app_server.Prelude.{
  ℕ, String, Bool, true, false, not, ◌&&◌, ◌||◌, Option, none, some, List, [], ◌∷◌, ltb, ◌==◌,
  if◌then◌else◌, first, count, select, take, update_rows, order_by,
}
use sardoba_app_server.Failure.{ok}
use sardoba_app_server.SyncJobs.{holds_text}
use sardoba_app_server.Models.{UserNotification, NotificationDeviceToken, Database, add_row}
use sardoba_app_server.Service.{Session, Service, ◌>>=◌, ◌>>◌, pure, query, write, commit}

-- `type IN (…)`; NULL is in no list, and is not kept by NOT IN either.
unfoldable pub has_type : List String → UserNotification → Bool
has_type [] n = false
has_type (t ∷ ts) n = holds_text n.type t || has_type ts n

abbrev is_typed : Option String → Bool
is_typed none = false
is_typed (some t) = true

abbrev kept : List String → UserNotification → Bool
kept [] n = true
kept (t ∷ ts) n = is_typed n.type && not (has_type (t ∷ ts) n)

abbrev at_most {ℓ} : {A : Type ℓ} → Option ℕ → List A → List A
at_most none xs = xs
at_most (some n) xs = if n == 0 then xs else take n xs

unfoldable pub list_for_user : ℕ → Option ℕ → List String → Database → List UserNotification
unfolding has_type
list_for_user user_id limit exclude_types db = at_most limit (
    order_by (λ a b. ltb b.created_at a.created_at)
      (select (λ n. n.user_id == user_id && kept exclude_types n) db.notifications.rows))

unfoldable pub list_pending_for_user : ℕ → Database → List UserNotification
list_pending_for_user user_id db =
    order_by (λ a b. ltb a.created_at b.created_at)
      (select (λ n. n.user_id == user_id && not n.is_sent) db.notifications.rows)

abbrev change_notifications :
    (UserNotification → Bool) → (UserNotification → UserNotification) → Database → Database
change_notifications p f db = record db {
  notifications = record db.notifications { rows = update_rows p f db.notifications.rows };
}

unfoldable pub mark_as_sent : ℕ → ℕ → Service (Unit {0})
mark_as_sent notification_id now s =
    elim (first (λ n. n.id == notification_id) s.work.notifications.rows) [
      | none ↦ (ok tt, s)
      | some n ↦
          if n.is_sent
          then (ok tt, s)
          else (do
            write (
                change_notifications (λ n. n.id == notification_id)
                  (λ n. record n { is_sent = true; sent_at = some now }))
            commit)
              s
    ]

abbrev own : ℕ → ℕ → UserNotification → Bool
own notification_id user_id n = n.id == notification_id && n.user_id == user_id

unfoldable pub mark_found : ℕ → ℕ → Option UserNotification → Service (Option UserNotification)
mark_found notification_id user_id none = pure none
mark_found notification_id user_id (some n) = if n.is_read then pure (some n) else (do
  write (change_notifications (own notification_id user_id) (λ n. record n { is_read = true }))
  commit
  pure (some (record n { is_read = true })))

unfoldable pub mark_as_read : ℕ → ℕ → Service (Option UserNotification)
unfolding mark_found
mark_as_read notification_id user_id = do
  found ← query (λ db. first (own notification_id user_id) db.notifications.rows)
  mark_found notification_id user_id found

abbrev unread : ℕ → UserNotification → Bool
unread user_id n = n.user_id == user_id && not n.is_read

unfoldable pub count_unread : ℕ → Database → ℕ
count_unread user_id db = count (unread user_id) db.notifications.rows

unfoldable pub find_token : ℕ → Option String → String → Database → Option NotificationDeviceToken
find_token user_id none device_type db =
    first (λ t. t.user_id == user_id && str_eq t.device_type device_type) db.tokens.rows
find_token user_id (some token) device_type db =
    elim (if str_eq token ""
      then none
      else first (λ t. holds_text t.device_token token) db.tokens.rows) [
        | none ↦
            first (λ t. t.user_id == user_id && str_eq t.device_type device_type) db.tokens.rows
        | some t ↦ some t
      ]

unfoldable pub token_row : ℕ → Option String → String → String → ℕ → NotificationDeviceToken
token_row user_id device_token device_type language id = record {
  id = id;
  user_id = user_id;
  device_token = device_token;
  device_type = device_type;
  language = language;
}

-- A token that is found passes to the user; otherwise there is a new row.
unfoldable pub put_token :
    (ℕ → NotificationDeviceToken) → Option NotificationDeviceToken → Service NotificationDeviceToken
put_token make none = do
  id ← query (λ db. db.tokens.next_id)
  write (λ db. record db { tokens = add_row make db.tokens })
  commit
  pure (make id)
put_token make (some t) = do
  write (λ db. record db {
    tokens = record db.tokens {
      rows = update_rows (λ u. u.id == t.id) (λ u. make t.id) db.tokens.rows;
    };
  })
  commit
  pure (make t.id)

unfoldable pub register_token :
    ℕ → Option String → String → String → Service NotificationDeviceToken
unfolding find_token token_row put_token
register_token user_id device_token device_type language = do
  found ← query (find_token user_id device_token device_type)
  put_token (token_row user_id device_token device_type language) found

unfoldable pub tokens_for_user : ℕ → Database → List NotificationDeviceToken
tokens_for_user user_id db = select (λ t. t.user_id == user_id) db.tokens.rows
