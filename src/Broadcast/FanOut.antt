-- ===== src/Broadcast/FanOut.antt =====
-- Whom a message to all reaches, and what its deletion leaves: app/services/notification_service.py.
use text.Mathlib.Text.{◌==◌ as str_eq}
use text.Mathlib.TextEquality.{eq_iff}
use sardoba_app_server.Prelude.{
  ℕ, ◌+◌, ◌≡◌, refl, String, Bool, true, false, not, ◌&&◌, List, [], ◌∷◌, ◌++◌, arith, count,
  select, ◌==◌, if◌then◌else◌, ap, ◌∙◌,
}
use mathlib.Core.List.{append-nil}
use sardoba_app_server.Prelude.Selection.{
  count-append, select-append, select-none, first-append_new,
}
use sardoba_app_server.Failure.{ok}
use sardoba_app_server.Models.{
  User, Staff, UserNotification, Notification, Table, Database, add_row, manager,
}
use sardoba_app_server.Service.{request}
use sardoba_app_server.Cashback.{is_manager}
use sardoba_app_server.Waiters.{holds_id}
use sardoba_app_server.Broadcast.{
  broadcast_row, record_for, add_records, fan_out_to_clients, create_broadcast, get_broadcast,
  remove_broadcast, delete_broadcast,
}

-- A row of the user that belongs to a message to all and says the same.
abbrev pub is_copy : Notification → ℕ → UserNotification → Bool
is_copy n user_id m =
    (holds_id m.notification_id n.id && m.user_id == user_id)
    && (str_eq m.title n.title && str_eq m.description n.description)

abbrev pub copies : Notification → ℕ → Database → ℕ
copies n user_id db = count (is_copy n user_id) db.notifications.rows

records_count :
    (n : Notification) (now user_id : ℕ) (us : List User) (t : Table UserNotification)
    → count (is_copy n user_id) (add_records n now us t).rows
      ≡ count (is_copy n user_id) t.rows + count (λ u. u.id == user_id) us
unfolding add_records count
records_count n now user_id [] t = omega arith
records_count n now user_id (u ∷ us) t =
    let p = is_copy n user_id in
    ground (
      arith,
      (eq_iff n.title n.title).1 refl,
      (eq_iff n.description n.description).1 refl,
      records_count n now user_id us (add_row (record_for n now u.id) t),
      count-append p t.rows (record_for n now u.id t.next_id ∷ []),
    )

count-active :
    (user_id : ℕ) (us : List User)
    → count (λ u. u.id == user_id) (select (λ u. not u.is_deleted) us)
      ≡ count (λ u. u.id == user_id && not u.is_deleted) us
unfolding count select
count-active user_id [] = refl
count-active user_id (u ∷ us) = ground (arith, count-active user_id us)

-- A manager's message is kept in any case. Where the database takes the rows, as many rows with its title
-- and description are made for a user's id as there are active users with that id, and otherwise none.
pub create_broadcast_lem :
    (accepted : Bool) (actor : Staff) (title description : String) (now user_id : ℕ) (db : Database)
    → actor.role ≡ manager
    → let (r, db') = request (create_broadcast accepted actor title description now) db in
      let n = broadcast_row title description now db.broadcasts.next_id in
      (r ≡ ok n)
      × (db'.broadcasts ≡ add_row (broadcast_row title description now) db.broadcasts)
      × (copies n user_id db'
          ≡ copies n user_id db
            + (if accepted
                then count (λ u. u.id == user_id && not u.is_deleted) db.users.rows
                else 0))
unfolding create_broadcast fan_out_to_clients
create_broadcast_lem true actor title description now user_id db h =
    let n = broadcast_row title description now db.broadcasts.next_id in
    rw (ap is_manager h, request)
      (
        refl,
        refl,
        omega (
          arith,
          records_count n now user_id (select (λ u. not u.is_deleted) db.users.rows)
              db.notifications,
          count-active user_id db.users.rows,
        ),
      )
create_broadcast_lem false actor title description now user_id db h =
    rw (ap is_manager h, request) (refl, refl, omega arith)

==_self : (n : ℕ) → (n == n) ≡ true
==_self n = ground arith

abbrev refers : ℕ → UserNotification → Bool
refers id m = holds_id m.notification_id id

records-removed :
    (n : Notification) (now : ℕ) (us : List User) (t : Table UserNotification)
    → select (λ m. not (refers n.id m)) (add_records n now us t).rows
      ≡ select (λ m. not (refers n.id m)) t.rows
unfolding add_records select
records-removed n now [] t = refl
records-removed n now (u ∷ us) t =
    let p : UserNotification → Bool = λ m. not (holds_id m.notification_id n.id) in
    records-removed n now us (add_row (record_for n now u.id) t)
    ∙ select-append p t.rows (record_for n now u.id t.next_id ∷ [])
    ∙ rw (==_self n.id) (append-nil _)

broadcasts-removed :
    (n : Notification) (ns : List Notification)
    → count (λ m. m.id == n.id) ns ≡ 0
    → select (λ m. not (m.id == n.id)) (ns ++ n ∷ []) ≡ ns
unfolding select
broadcasts-removed n ns new =
    select-append (λ (m : Notification). not (m.id == n.id)) ns (n ∷ [])
    ∙ rw (==_self n.id) (append-nil _)
    ∙ select-none (λ m. m.id == n.id) ns new

-- Deleting a message to all right after it was created puts the messages and the users' rows back as
-- they were, where ids are unique and no row refers to the next message yet.
pub delete-create_broadcast :
    (accepted : Bool) (actor : Staff) (title description : String) (now : ℕ) (db : Database)
    → actor.role ≡ manager
    → count (λ n. n.id == db.broadcasts.next_id) db.broadcasts.rows ≡ 0
    → count (λ m. holds_id m.notification_id db.broadcasts.next_id) db.notifications.rows ≡ 0
    → let (created, db₁) = request (create_broadcast accepted actor title description now) db in
      let (r, db₂) = request (delete_broadcast actor db.broadcasts.next_id) db₁ in
      (r ≡ ok tt)
      × (db₂.notifications.rows ≡ db.notifications.rows)
      × (db₂.broadcasts.rows ≡ db.broadcasts.rows)
unfolding create_broadcast fan_out_to_clients delete_broadcast get_broadcast remove_broadcast
delete-create_broadcast true actor title description now db h new fresh =
    let id = db.broadcasts.next_id in
    let n = broadcast_row title description now id in
    let found =
      first-append_new (λ (m : Notification). m.id == id) db.broadcasts.rows n new (==_self id) in
    rw (ap is_manager h, request)
      (rw found (
        refl,
        records-removed n now (select (λ u. not u.is_deleted) db.users.rows) db.notifications
            ∙ select-none (λ m. holds_id m.notification_id id) db.notifications.rows fresh,
        broadcasts-removed n db.broadcasts.rows new,
      ))
delete-create_broadcast false actor title description now db h new fresh =
    let id = db.broadcasts.next_id in
    let n = broadcast_row title description now id in
    let found =
      first-append_new (λ (m : Notification). m.id == id) db.broadcasts.rows n new (==_self id) in
    rw (ap is_manager h, request)
      (rw found (
        refl,
        select-none (λ m. holds_id m.notification_id id) db.notifications.rows fresh,
        broadcasts-removed n db.broadcasts.rows new,
      ))
