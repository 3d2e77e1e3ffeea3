-- ===== src/Auth/StaffAccess/Creation.antt =====
-- `create_staff` of app/services/auth_service.py: phones and referral codes stay unique.
use text.Mathlib.Text.{◌==◌ as str_eq}
use text.Mathlib.TextEquality.{eq_iff}
use sardoba_app_server.Prelude.{
  ◌≤◌, ◌≡◌, refl, String, Bool, true, false, not, Option, none, some, List, [], ◌∷◌, ◌++◌, arith,
  inl, inr, Bool-cases, count, ap, subst,
}
use sardoba_app_server.Prelude.Selection.{count-append}
use sardoba_app_server.SyncJobs.{holds_text}
use sardoba_app_server.Failure.{Outcome, ok, raised}
use sardoba_app_server.Models.{Staff, Database, add_row}
use sardoba_app_server.Service.{Session, continue, request, pure}
use sardoba_app_server.Tokens.{Security}
use sardoba_app_server.Cashback.{is_manager}
use sardoba_app_server.Auth.StaffAccess.{
  NewStaff, has_referral, has_phone, stripped, generate_referral_code, choose_referral, staff_row,
  insert_staff, add_staff, create_staff,
}

-- No two members of staff have one phone or one referral code.
pub record IsUnique (db : Database) : Type 0 where
  pub phones : (phone : String) → count (λ w. str_eq w.phone phone) db.staff.rows ≤ 1
  pub referrals : (code : String) → count (λ w. holds_text w.referral_code code) db.staff.rows ≤ 1

abbrev is_free : Option String → Database → Bool
is_free none db = true
is_free (some code) db = not (has_referral code db)

-- What a choice of a code may come to, in a session: a failure, or a code that no one has.
abbrev IsChoice : Session → Outcome (Option String) × Session → Type 0
IsChoice s (ok r, s') = (is_free r s.work ≡ true) × (s' ≡ s)
IsChoice s (raised e, s') = s' ≡ s

abbrev IsCode : Session → Outcome String × Session → Type 0
IsCode s (ok code, s') = (has_referral code s.work ≡ false) × (s' ≡ s)
IsCode s (raised e, s') = s' ≡ s

generate-IsCode : (codes : List String) (s : Session) → IsCode s (generate_referral_code codes s)
unfolding generate_referral_code
generate-IsCode [] s = refl
generate-IsCode (code ∷ codes) s = elim (Bool-cases (has_referral code s.work)) [
  | inl e ↦ rw e (generate-IsCode codes s)
  | inr e ↦ rw e (e, refl)
]

continued-IsChoice :
    (s : Session) (r : Outcome String × Session)
    → IsCode s r
    → IsChoice s (continue r.0 (λ code. pure (some code)) r.1)
continued-IsChoice s (ok code, s') h = (ap not h.0, h.1)
continued-IsChoice s (raised e, s') h = h

choose-IsChoice :
    (codes : List String) (n : NewStaff) (s : Session) → IsChoice s (choose_referral codes n s)
unfolding choose_referral
choose-IsChoice codes n s = elim (Bool-cases (is_manager n.role)) [
  | inl e ↦ rw e (refl, refl)
  | inr e ↦ elim (Bool-cases (str_eq (stripped n.referral_code) "")) [
    | inl f ↦
        rw (e, f) (continued-IsChoice s (generate_referral_code codes s) (generate-IsCode codes s))
    | inr f ↦ elim (Bool-cases (has_referral (stripped n.referral_code) s.work)) [
      | inl g ↦ rw (e, f, g) refl
      | inr g ↦ rw (e, f, g) (ap not g, refl)
    ]
  ]
]

one_more :
    (p : Staff → Bool) (rows : List Staff) (w : Staff)
    → count p rows ≤ 1
    → (p w ≡ true → count p rows ≡ 0)
    → count p (rows ++ w ∷ []) ≤ 1
unfolding count
one_more p rows w h fresh = ground (arith, count-append p rows (w ∷ []), fresh)

no_phone :
    (taken phone : String) (db : Database)
    → has_phone taken db ≡ false
    → str_eq taken phone ≡ true
    → count (λ w. str_eq w.phone phone) db.staff.rows ≡ 0
unfolding has_phone
no_phone taken phone db h e =
    subst (λ p. count (λ w. str_eq w.phone p) db.staff.rows ≡ 0) ((eq_iff taken phone).0 e)
      (ground arith)

no_referral :
    (r : Option String) (code : String) (db : Database)
    → is_free r db ≡ true
    → holds_text r code ≡ true
    → count (λ w. holds_text w.referral_code code) db.staff.rows ≡ 0
unfolding has_referral
no_referral none code db h e = cc
no_referral (some c) code db h e =
    subst (λ d. count (λ w. holds_text w.referral_code d) db.staff.rows ≡ 0) ((eq_iff c code).0 e)
      (ground arith)

added-IsUnique :
    (x : Security) (salt : String) (n : NewStaff) (r : Option String) (db : Database)
    → IsUnique db
    → has_phone n.phone db ≡ false
    → is_free r db ≡ true
    → IsUnique (record db { staff = add_row (staff_row x salt n r) db.staff })
unfolding staff_row
added-IsUnique x salt n r db h free free_code = record {
  phones = λ phone.
      one_more (λ w. str_eq w.phone phone) db.staff.rows (staff_row x salt n r db.staff.next_id)
        (h.phones phone) (no_phone n.phone phone db free);
  referrals = λ code.
      one_more (λ w. holds_text w.referral_code code) db.staff.rows
        (staff_row x salt n r db.staff.next_id) (h.referrals code)
        (no_referral r code db free_code);
}

-- A session at the start of a request.
abbrev fresh : Database → Session
fresh db = record { work = db; saved = db }

add_staff-IsUnique :
    (x : Security) (salt : String) (n : NewStaff) (r : Option String) (db : Database)
    → IsUnique db
    → is_free r db ≡ true
    → IsUnique (add_staff x salt n r (fresh db)).1.saved
unfolding add_staff insert_staff
add_staff-IsUnique x salt n r db h free_code = elim (Bool-cases (has_phone n.phone db)) [
  | inl e ↦ rw e h
  | inr e ↦ rw e (added-IsUnique x salt n r db h e free_code)
]

chosen-IsUnique :
    (x : Security) (salt : String) (n : NewStaff) (db : Database)
    (choice : Outcome (Option String) × Session)
    → IsUnique db
    → IsChoice (fresh db) choice
    → IsUnique (continue choice.0 (λ r. add_staff x salt n r) choice.1).1.saved
chosen-IsUnique x salt n db (ok r, s') h (free, same) =
    rw same (add_staff-IsUnique x salt n r db h free)
chosen-IsUnique x salt n db (raised e, s') h same = rw same h

-- Where phones and referral codes are unique, a request to create staff, by anyone and whatever it comes to,
-- leaves them so.
pub create_staff-IsUnique :
    (x : Security) (codes : List String) (salt : String) (n : NewStaff) (actor : Staff)
    (db : Database)
    → IsUnique db
    → IsUnique (request (create_staff x codes salt n actor) db).1
unfolding create_staff
create_staff-IsUnique x codes salt n actor db h = elim (Bool-cases (is_manager actor.role)) [
  | inl e ↦ rw e (
      chosen-IsUnique x salt n db (choose_referral codes n (fresh db)) h
        (choose-IsChoice codes n (fresh db)))
  | inr e ↦ rw e h
]
