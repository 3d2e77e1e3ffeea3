-- ===== src/Waiters/Removal.antt =====
-- `delete_waiter` of app/services/staff_service.py: what is left, and when it is refused.
use sardoba_app_server.Prelude.{
  ℕ, ◌≡◌, refl, Bool, true, false, Option, none, some, arith, inl, inr, Bool-cases, count, first,
  update_rows, ◌==◌, List, [], ◌∷◌,
}
use sardoba_app_server.Prelude.Selection.{first-kept, count-removed}
use sardoba_app_server.Failure.{Outcome, ok, raised, conflict_error}
use sardoba_app_server.Models.{User, Staff, Database}
use sardoba_app_server.Service.{request}
use sardoba_app_server.Waiters.{
  holds_id, find_waiter_by_id, count_clients, get_waiter, has_transactions, remove_waiter,
  commit_removal, delete_waiter,
}

-- The waiter is gone and nobody's; the others have the rows and the clients that they had.
pub record IsRemoved (id other : ℕ) (before after : Database) : Type 0 where
  pub gone : count (λ w. w.id == id) after.staff.rows ≡ 0
  pub left : count_clients id after ≡ 0
  pub other_staff :
      first (λ w. w.id == other) after.staff.rows ≡ first (λ w. w.id == other) before.staff.rows
  pub other_clients : count_clients other after ≡ count_clients other before

abbrev freed : User → User
freed u = record u { waiter_id = none }

clients_left :
    (id : ℕ) (us : List User)
    → count (λ u. holds_id u.waiter_id id) (update_rows (λ u. holds_id u.waiter_id id) freed us) ≡ 0
unfolding count update_rows
clients_left id [] = refl
clients_left id (u ∷ us) = ground (arith, clients_left id us)

apart_ids :
    (id other : ℕ) (o : Option ℕ)
    → (id == other) ≡ false
    → holds_id o other ≡ true
    → holds_id o id ≡ false
apart_ids id other none h e = cc
apart_ids id other (some n) h e = ground arith

clients_kept :
    (id other : ℕ) (us : List User)
    → (id == other) ≡ false
    → count (λ u. holds_id u.waiter_id other) (update_rows (λ u. holds_id u.waiter_id id) freed us)
      ≡ count (λ u. holds_id u.waiter_id other) us
unfolding count update_rows
clients_kept id other [] h = refl
clients_kept id other (u ∷ us) h =
    ground (arith, apart_ids id other u.waiter_id h, clients_kept id other us h)

remove_waiter-IsRemoved :
    (id other : ℕ) (db : Database)
    → (id == other) ≡ false
    → IsRemoved id other db (remove_waiter id db)
unfolding remove_waiter count_clients
remove_waiter-IsRemoved id other db h = record {
  gone = count-removed (λ w. w.id == id) db.staff.rows;
  left = clients_left id db.users.rows;
  other_staff =
      first-kept (λ w. w.id == id) (λ w. w.id == other) (λ w e. ground arith) db.staff.rows;
  other_clients = clients_kept id other db.users.rows h;
}

-- What the deletion of a waiter comes to, where `related` says that transactions refer to the waiter.
abbrev pub IsDeletion : Bool → ℕ → ℕ → Database → Outcome (Unit {0}) × Database → Type 0
IsDeletion true id other db (r, db') =
    (r ≡ raised (conflict_error "Cannot delete waiter with related records")) × (db' ≡ db)
IsDeletion false id other db (r, db') = (r ≡ ok tt) × IsRemoved id other db db'

-- A deletion of a waiter that is found is refused, and leaves the database as it was, where a
-- transaction refers to the waiter. Otherwise it succeeds: the waiter is gone, no user has the waiter
-- any more, and every other member of staff has the row and as many clients as before.
pub delete_waiter-IsDeletion :
    (id other : ℕ) (db : Database) (w : Staff)
    → find_waiter_by_id id db ≡ some w
    → (w.id == other) ≡ false
    → IsDeletion (has_transactions w.id db) w.id other db (request (delete_waiter id) db)
unfolding delete_waiter get_waiter find_waiter_by_id commit_removal
delete_waiter-IsDeletion id other db w e h = elim (Bool-cases (has_transactions w.id db)) [
  | inl related ↦ rw (e, request) (rw related (refl, refl))
  | inr free ↦ rw (e, request) (rw free (refl, remove_waiter-IsRemoved w.id other db h))
]
