-- ===== src/Inbox/Unread.antt =====
-- Reading notifications: `mark_as_read` and `count_unread` of app/services/user_notification_service.py.
use sardoba_app_server.Prelude.{
  ℕ, ◌+◌, ◌≡◌, refl, Bool, true, false, ◌&&◌, Option, none, some, List, [], ◌∷◌, arith, inl, inr,
  Bool-cases, first, count, update_rows, ◌==◌, not, ◌≤◌,
}
use sardoba_app_server.Models.{UserNotification, Database}
use sardoba_app_server.Service.{request}
use sardoba_app_server.Inbox.{own, unread, mark_found, mark_as_read, count_unread}

other_unread :
    (id user_id other : ℕ) (ns : List UserNotification)
    → (user_id == other) ≡ false
    → count (unread other) (update_rows (own id user_id) (λ n. record n { is_read = true }) ns)
      ≡ count (unread other) ns
unfolding count update_rows
other_unread id user_id other [] h = refl
other_unread id user_id other (n ∷ ns) h = ground (arith, other_unread id user_id other ns h)

-- How many unread notifications of the user have the id.
abbrev pub waiting : ℕ → ℕ → UserNotification → Bool
waiting id user_id n = own id user_id n && not n.is_read

own-unread :
    (id user_id : ℕ) (ns : List UserNotification)
    → count (unread user_id) (update_rows (own id user_id) (λ n. record n { is_read = true }) ns)
        + count (waiting id user_id) ns
      ≡ count (unread user_id) ns
unfolding count update_rows
own-unread id user_id [] = refl
own-unread id user_id (n ∷ ns) = ground (arith, own-unread id user_id ns)

none-waiting :
    (id user_id : ℕ) (ns : List UserNotification)
    → first (own id user_id) ns ≡ none
    → count (waiting id user_id) ns ≡ 0
unfolding count first
none-waiting id user_id [] e = refl
none-waiting id user_id (n ∷ ns) e = ground (arith, none-waiting id user_id ns)

waiting-own :
    (id user_id : ℕ) (ns : List UserNotification)
    → count (waiting id user_id) ns ≤ count (own id user_id) ns
unfolding count
waiting-own id user_id [] = omega arith
waiting-own id user_id (n ∷ ns) = ground (arith, waiting-own id user_id ns)

read_waiting :
    (id user_id : ℕ) (ns : List UserNotification) (n : UserNotification)
    → count (own id user_id) ns ≤ 1
    → first (own id user_id) ns ≡ some n
    → n.is_read ≡ true
    → count (waiting id user_id) ns ≡ 0
unfolding count first
read_waiting id user_id [] n h e r = cc
read_waiting id user_id (m ∷ ns) n h e r =
    ground (arith, read_waiting id user_id ns n, waiting-own id user_id ns)

marked :
    (id user_id other : ℕ) (found : Option UserNotification) (db : Database)
    → first (own id user_id) db.notifications.rows ≡ found
    → count (own id user_id) db.notifications.rows ≤ 1
    → (user_id == other) ≡ false
    → let db' = (request (mark_found id user_id found) db).1 in
      (count_unread user_id db' + count (waiting id user_id) db.notifications.rows
        ≡ count_unread user_id db)
      × (count_unread other db' ≡ count_unread other db)
unfolding mark_found count_unread
marked id user_id other none db e unique h =
    (omega (arith, none-waiting id user_id db.notifications.rows e), refl)
marked id user_id other (some n) db e unique h =
    let rows = db.notifications.rows in
    elim (Bool-cases n.is_read) [
      | inl r ↦ rw r (omega (arith, read_waiting id user_id rows n unique e r), refl)
      | inr r ↦ rw r (own-unread id user_id rows, other_unread id user_id other rows h)
    ]

-- Where ids are unique, marking a notification as read lowers the unread count of the user by one if the
-- notification is the user's and was not read, and otherwise not at all; no other user's count changes, not
-- even where the notification is another user's.
pub mark_as_read-count_unread :
    (id user_id other : ℕ) (db : Database)
    → count (own id user_id) db.notifications.rows ≤ 1
    → (user_id == other) ≡ false
    → let db' = (request (mark_as_read id user_id) db).1 in
      (count_unread user_id db' + count (waiting id user_id) db.notifications.rows
        ≡ count_unread user_id db)
      × (count_unread other db' ≡ count_unread other db)
unfolding mark_as_read
mark_as_read-count_unread id user_id other db unique h =
    marked id user_id other (first (own id user_id) db.notifications.rows) db refl unique h
