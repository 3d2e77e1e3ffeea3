-- ===== src/Broadcast/Tests.antt =====
-- Messages to all at a concrete database.
use sardoba_app_server.Prelude.{
  ◌≡◌, refl, true, not, [], ◌∷◌, ◌+◌, ◌&&◌, ◌==◌, count, if◌then◌else◌,
}
use sardoba_app_server.Failure.{ok}
use sardoba_app_server.Samples.{database_of, sample_manager, sample_user}
use sardoba_app_server.Models.{Database, User, add_row}
use sardoba_app_server.Service.{request}
use sardoba_app_server.Broadcast.{create_broadcast, broadcast_row}
use sardoba_app_server.Broadcast.FanOut.{copies, create_broadcast_lem}

abbrev gone : User
gone = record sample_user { id = 6; phone = "deleted:1"; is_deleted = true }

abbrev two_clients : Database
two_clients = database_of (gone ∷ sample_user ∷ []) [] []

create_broadcast_lem_example :
    let (r, db') =
      request (create_broadcast true sample_manager "Osh" "Bugun palov" 5_000_000) two_clients in
    (r ≡ ok (broadcast_row "Osh" "Bugun palov" 5_000_000 1))
    × (db'.broadcasts
        ≡ add_row (broadcast_row "Osh" "Bugun palov" 5_000_000) two_clients.broadcasts)
    × (copies (broadcast_row "Osh" "Bugun palov" 5_000_000 1) 7 db'
        ≡ copies (broadcast_row "Osh" "Bugun palov" 5_000_000 1) 7 two_clients
          + (if true then count (λ u. u.id == 7 && not u.is_deleted) two_clients.users.rows else 0))
unfolding broadcast_row
create_broadcast_lem_example =
    create_broadcast_lem true sample_manager "Osh" "Bugun palov" 5_000_000 7 two_clients refl
