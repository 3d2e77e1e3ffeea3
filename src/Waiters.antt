-- ===== src/Waiters.antt =====
-- Managing waiters: app/services/staff_service.py. `create_waiter` is `create_staff` with the role of
-- a waiter. ILIKE is an argument.
pub mod Update
pub mod Removal
mod Tests
use text.Mathlib.Text.{◌==◌ as str_eq}
use sardoba_app_server.Prelude.{
  ℕ, ◌-◌, ◌*◌, String, Bool, true, false, not, ◌&&◌, ◌||◌, Option, none, some, List, [], ◌∷◌, map,
  ◌==◌, if◌then◌else◌, first, count, select, update_rows, length, take,
}
use sardoba_app_server.Text.{strip}
use sardoba_app_server.Failure.{or_raise, not_found_error, conflict_error, integrity_error}
use sardoba_app_server.Models.{
  User, Staff, StaffRole, manager, waiter, CashbackTransaction, Database, Table,
}
use sardoba_app_server.SyncJobs.{holds_text}
use sardoba_app_server.Tokens.{Security}
use sardoba_app_server.Auth.{is_waiter}
use sardoba_app_server.Auth.StaffAccess.{NewStaff, create_staff}
use sardoba_app_server.Service.{
  Service, ◌>>=◌, ◌>>◌, pure, raise, lift, query, write, unless, commit, rollback,
}

abbrev pub holds_id : Option ℕ → ℕ → Bool
holds_id none n = false
holds_id (some m) n = m == n

-- A waiter with the number of clients, which the service sets on the object.
pub record CountedWaiter : Type 0 where
  pub waiter : Staff
  pub clients_count : ℕ

unfoldable pub find_waiter_by_id : ℕ → Database → Option Staff
find_waiter_by_id id db = first (λ w. w.id == id && is_waiter w.role) db.staff.rows

unfoldable pub count_clients : ℕ → Database → ℕ
count_clients id db = count (λ u. holds_id u.waiter_id id) db.users.rows

unfoldable pub get_waiter : ℕ → Service CountedWaiter
unfolding find_waiter_by_id count_clients
get_waiter id = do
  found ← query (find_waiter_by_id id)
  w ← lift (or_raise found (not_found_error "Waiter not found"))
  n ← query (count_clients w.id)
  pure (record { waiter = w; clients_count = n })

-- The rows of one page; `ilike pattern text` is the database's match.
abbrev drop_rows {ℓ} : {A : Type ℓ} → ℕ → List A → List A
drop_rows n [] = []
drop_rows n (x ∷ xs) = if n == 0 then x ∷ xs else drop_rows (n - 1) xs

pub record WaiterQuery : Type 0 where
  pub page : ℕ
  pub size : ℕ
  pub search : Option String
  pub branch_id : Option ℕ

unfoldable pub in_branch : Option ℕ → Staff → Bool
in_branch none w = true
in_branch (some b) w = holds_id w.branch_id b

unfoldable pub is_searched : (String → String → Bool) → Option String → Staff → Bool
is_searched ilike none w = true
is_searched ilike (some text) w = str_eq text "" || (ilike text w.name || ilike text w.phone)

-- `newest_first` sorts by the time of creation, a column that only the database sets.
unfoldable pub list_waiters :
    (String → String → Bool)
    → (List Staff → List Staff)
    → WaiterQuery
    → Database
    → ℕ × List CountedWaiter
unfolding in_branch is_searched count_clients
list_waiters ilike newest_first q db =
    let rows =
      select (λ w. is_waiter w.role && (in_branch q.branch_id w && is_searched ilike q.search w))
        db.staff.rows in
    (
      length rows,
      map (λ w. record { waiter = w; clients_count = count_clients w.id db })
          (take q.size (drop_rows ((q.page - 1) * q.size) (newest_first rows))),
    )

unfoldable pub list_staff :
    (String → String → Bool)
    → (List Staff → List Staff)
    → ℕ
    → ℕ
    → Option String
    → Database
    → ℕ × List Staff
unfolding is_searched
list_staff ilike newest_first page size search db =
    let rows = select (is_searched ilike search) db.staff.rows in
    (length rows, take size (drop_rows ((page - 1) * size) (newest_first rows)))

unfoldable pub create_waiter :
    Security
    → List String
    → String
    → String
    → String
    → String
    → Option ℕ
    → Option String
    → Staff
    → Service Staff
unfolding create_staff
create_waiter x codes salt name phone password branch_id referring_code actor =
    create_staff x codes salt
      (record {
        name = name;
        phone = phone;
        password = password;
        role = waiter;
        branch_id = branch_id;
        referral_code = referring_code;
      })
      actor

pub record WaiterUpdate : Type 0 where
  pub name : Option String
  pub phone : Option String
  pub password : Option String
  pub branch_id : Option ℕ
  pub branch_is_set : Bool
  pub referral_code : Option String
  pub referral_code_is_set : Bool

abbrev pub given_text : Option String → String → String
given_text none old = old
given_text (some t) old = if str_eq t "" then old else t

abbrev pub set_text : Option String → String → String
set_text none old = old
set_text (some t) old = t

-- referral_code.strip() if referral_code else None
abbrev pub normalized_ref : Option String → Option String
normalized_ref none = none
normalized_ref (some t) = if str_eq t "" then none else some (strip t)

abbrev hashed : Security → String → Option String → String → String
hashed x salt none old = old
hashed x salt (some p) old = if str_eq p "" then old else x.hash salt p

abbrev pub new_referral : WaiterUpdate → Staff → Option String
new_referral u w =
    if u.referral_code_is_set then normalized_ref u.referral_code else w.referral_code

unfoldable pub updated_waiter : Security → String → WaiterUpdate → Staff → Staff
updated_waiter x salt u w = record w {
  phone = given_text u.phone w.phone;
  name = set_text u.name w.name;
  branch_id = if u.branch_is_set then u.branch_id else w.branch_id;
  referral_code = new_referral u w;
  password_hash = hashed x salt u.password w.password_hash;
}

unfoldable pub phone_conflict : ℕ → String → Database → Bool
phone_conflict id phone db =
    not (count (λ w. str_eq w.phone phone && not (w.id == id)) db.staff.rows == 0)

unfoldable pub referral_conflict : ℕ → Option String → Database → Bool
referral_conflict id none db = false
referral_conflict id (some code) db =
    not (count (λ w. holds_text w.referral_code code && not (w.id == id)) db.staff.rows == 0)

unfoldable pub put_staff : Staff → Database → Database
put_staff w db = record db {
  staff = record db.staff { rows = update_rows (λ v. v.id == w.id) (λ v. w) db.staff.rows };
}

-- The checks of the code, and that of the unique columns at the commit: an empty referral code, which
-- stands for a text of spaces, is checked by the latter only.
unfoldable pub check_update : WaiterUpdate → Staff → Service (Unit {0})
unfolding phone_conflict referral_conflict
check_update u w = do
  phone_taken ← query (phone_conflict w.id (given_text u.phone w.phone))
  unless (str_eq (given_text u.phone w.phone) w.phone || not phone_taken)
      (conflict_error "Staff with this phone already exists")
  referral_taken ← query (referral_conflict w.id (new_referral u w))
  unless (not (u.referral_code_is_set && referral_taken)) (
      if holds_text (new_referral u w) ""
      then integrity_error
      else conflict_error "Referral code already in use")

unfoldable pub update_waiter : Security → String → ℕ → WaiterUpdate → Service Staff
unfolding get_waiter check_update put_staff updated_waiter
update_waiter x salt waiter_id u = do
  counted ← get_waiter waiter_id
  check_update u counted.waiter
  write (put_staff (updated_waiter x salt u counted.waiter))
  commit
  pure (updated_waiter x salt u counted.waiter)

-- The clients of the waiter are left without one: a relationship without a cascade sets their column
-- to NULL. The transactions refer to the waiter by a foreign key that is only checked.
unfoldable pub remove_waiter : ℕ → Database → Database
remove_waiter id db = record db {
  staff = record db.staff { rows = select (λ w. not (w.id == id)) db.staff.rows };
  users = record db.users {
    rows =
        update_rows (λ u. holds_id u.waiter_id id) (λ u. record u { waiter_id = none })
          db.users.rows;
  };
}

unfoldable pub has_transactions : ℕ → Database → Bool
has_transactions id db = not (count (λ t. holds_id t.staff_id id) db.transactions.rows == 0)

unfoldable pub commit_removal : ℕ → Bool → Service (Unit {0})
unfolding remove_waiter
commit_removal id true = do
  rollback
  raise (conflict_error "Cannot delete waiter with related records")
commit_removal id false = do write (remove_waiter id); commit

unfoldable pub delete_waiter : ℕ → Service (Unit {0})
unfolding get_waiter has_transactions commit_removal
delete_waiter waiter_id = do
  counted ← get_waiter waiter_id
  related ← query (has_transactions counted.waiter.id)
  commit_removal counted.waiter.id related
