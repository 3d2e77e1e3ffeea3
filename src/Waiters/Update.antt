-- ===== src/Waiters/Update.antt =====
-- `update_waiter` of app/services/staff_service.py keeps phones and referral codes unique.
use text.Mathlib.Text.{◌==◌ as str_eq}
use text.Mathlib.TextEquality.{eq_iff}
use sardoba_app_server.Prelude.{
  ℕ, ◌≡◌, String, Bool, true, false, not, ◌&&◌, ◌||◌, Option, some, arith, ◌⊎◌, inl, inr,
  Bool-cases, Option-cases, count, first, first-holds, ◌==◌, if◌then◌else◌, ==_iff, subst, sym,
}
use sardoba_app_server.Prelude.Unique.{
  HasIds, HasIds-replace, IsUniqueColumn, IsUniqueColumn-replace, first-id,
}
use sardoba_app_server.SyncJobs.{holds_text}
use sardoba_app_server.Models.{Staff, Database}
use sardoba_app_server.Service.{Session, request}
use sardoba_app_server.Tokens.{Security}
use sardoba_app_server.Auth.{is_waiter}
use sardoba_app_server.Waiters.{
  WaiterUpdate, find_waiter_by_id, get_waiter, given_text, new_referral, normalized_ref,
  updated_waiter, phone_conflict, referral_conflict, put_staff, check_update, update_waiter,
}

-- The table of staff has ids, and no two members have one phone or one referral code.
pub record IsStaffTable (db : Database) : Type 0 where
  pub ids : HasIds (λ (w : Staff). w.id) db.staff.next_id db.staff.rows
  pub phones : IsUniqueColumn (λ (w : Staff). some w.phone) db.staff.rows
  pub referrals : IsUniqueColumn (λ (w : Staff). w.referral_code) db.staff.rows

phone_free :
    (id : ℕ) (old new t : String) (db : Database)
    → (str_eq new old || not (phone_conflict id new db)) ≡ true
    → some new ≡ some t
    → (some old ≡ some t) ⊎ (count (λ w. str_eq w.phone t && not (w.id == id)) db.staff.rows ≡ 0)
unfolding phone_conflict
phone_free id old new t db h e = elim (Bool-cases (str_eq new old)) [
  | inl same ↦ inl (ground (arith, eq_iff new old))
  | inr other ↦ let conflict = rw other at h in inr (ground arith)
]

referral_free :
    (id : ℕ) (is_set : Bool) (old new : Option String) (t : String) (db : Database)
    → not (is_set && referral_conflict id (if is_set then new else old) db) ≡ true
    → (if is_set then new else old) ≡ some t
    → (old ≡ some t)
      ⊎ (count (λ w. holds_text w.referral_code t && not (w.id == id)) db.staff.rows ≡ 0)
unfolding referral_conflict
referral_free id true old new t db h e = inr (ground (arith, rw e at h))
referral_free id false old new t db h e = inl e

module _ (x : Security) (salt : String) (u : WaiterUpdate) (w : Staff) (db : Database) where
  put-IsStaffTable :
      IsStaffTable db
      → first (λ (v : Staff). v.id == w.id) db.staff.rows ≡ some w
      → (str_eq (given_text u.phone w.phone) w.phone
          || not (phone_conflict w.id (given_text u.phone w.phone) db))
        ≡ true
      → not (u.referral_code_is_set && referral_conflict w.id (new_referral u w) db) ≡ true
      → IsStaffTable (put_staff (updated_waiter x salt u w) db)
  unfolding put_staff updated_waiter
  put-IsStaffTable h e free_phone free_code =
      let here : Staff → Bool = λ v. v.id == w.id in
      let new = updated_waiter x salt u w in
      record {
        ids = HasIds-replace (λ (v : Staff). v.id) db.staff.next_id db.staff.rows new h.ids;
        phones =
            IsUniqueColumn-replace (λ (v : Staff). some v.phone) here w new db.staff.rows h.phones
              (h.ids.unique w.id) e
              (λ t same. phone_free w.id w.phone (given_text u.phone w.phone) t db free_phone same);
        referrals =
            IsUniqueColumn-replace (λ (v : Staff). v.referral_code) here w new db.staff.rows
              h.referrals (h.ids.unique w.id) e
              (λ t same.
                referral_free w.id u.referral_code_is_set w.referral_code
                  (normalized_ref u.referral_code) t db free_code same);
      }

waiter-found :
    (id : ℕ) (w : Staff) (db : Database)
    → IsStaffTable db
    → find_waiter_by_id id db ≡ some w
    → first (λ (v : Staff). v.id == w.id) db.staff.rows ≡ some w
unfolding find_waiter_by_id
waiter-found id w db h e =
    let by_id =
      first-id (λ (v : Staff). v.id) (λ v. is_waiter v.role) id db.staff.rows w (h.ids.unique id)
        e in
    let same : w.id ≡ id =
      (==_iff w.id id).0 (first-holds (λ (v : Staff). v.id == id) db.staff.rows by_id) in
    subst (λ n. first (λ (v : Staff). v.id == n) db.staff.rows ≡ some w) (sym same) by_id

abbrev fresh : Database → Session
fresh db = record { work = db; saved = db }

-- With the waiter found, the checks decide: either nothing is committed or the new row is.
module _ (x : Security) (salt : String) (id : ℕ) (u : WaiterUpdate) (db : Database) where
  found-IsStaffTable :
      (w : Staff)
      → IsStaffTable db
      → find_waiter_by_id id db ≡ some w
      → IsStaffTable (request (update_waiter x salt id u) db).1
  unfolding update_waiter get_waiter check_update find_waiter_by_id
  found-IsStaffTable w h e =
      let phone_ok : Bool =
        str_eq (given_text u.phone w.phone) w.phone
        || not (phone_conflict w.id (given_text u.phone w.phone) db) in
      let code_ok : Bool =
        not (u.referral_code_is_set && referral_conflict w.id (new_referral u w) db) in
      elim (Bool-cases phone_ok) [
        | inr refused ↦ rw (e, request) (rw refused h)
        | inl free_phone ↦ elim (Bool-cases code_ok) [
          | inr refused ↦ rw (e, request) (rw (free_phone, refused) h)
          | inl free_code ↦
              rw (e, request)
                (rw (free_phone, free_code)
                  (put-IsStaffTable x salt u w db h (waiter-found id w db h e) free_phone
                    free_code))
        ]
      ]

-- Where ids, phones and referral codes of the staff are unique, an update of a waiter leaves them so,
-- whatever it sets and whether it is refused or goes through.
pub update_waiter-IsStaffTable :
    (x : Security) (salt : String) (id : ℕ) (u : WaiterUpdate) (db : Database)
    → IsStaffTable db
    → IsStaffTable (request (update_waiter x salt id u) db).1
unfolding update_waiter get_waiter find_waiter_by_id
update_waiter-IsStaffTable x salt id u db h = elim (Option-cases (find_waiter_by_id id db)) [
  | inl missing ↦ rw (missing, request) h
  | inr (w, e) ↦ found-IsStaffTable x salt id u db w h e
]
