-- ===== src/Customer/Profile.antt =====
-- What a user has entered survives a synchronisation: app/services/auth_service.py.
use text.Mathlib.Text.{◌==◌ as str_eq}
use text.Mathlib.TextEquality.{eq_iff}
use sardoba_app_server.Prelude.{
  ℕ, ◌≡◌, refl, String, false, Option, none, some, ◌⊎◌, inl, inr, arith, ◌∙◌, Bool-cases, first,
  ◌==◌, [], ◌∷◌,
}
use sardoba_app_server.Models.{User, Table}
use sardoba_app_server.Auth.{put_user}
use sardoba_app_server.Service.{Session}
use sardoba_app_server.Service.Preserves.{Preserves}
use sardoba_app_server.Iiko.{IikoCustomer, Readers}
use sardoba_app_server.Iiko.Reading.{
  value_of, or_value, extract_iiko_string, compose_iiko_name, parse_iiko_birthday, map_iiko_sex,
}
use sardoba_app_server.Customer.Keeping.{OfUsers, IsKept}
use sardoba_app_server.Customer.Wallets.{freed_row, put_row}
use sardoba_app_server.Customer.{
  user_by_id, the_user, user_conflict, save_user, free_wallet, assign_wallet_to_user, fill,
  fill_date, filled_profile, assign_customer, assign_wallet, fill_profile,
}

-- A text that is not empty is still there.
abbrev pub KeptText : Option String → Option String → Type 0
KeptText none new = Unit
KeptText (some t) new = (t ≡ "") ⊎ (new ≡ some t)

abbrev pub KeptDate : Option ℕ → Option ℕ → Type 0
KeptDate none new = Unit
KeptDate (some d) new = new ≡ some d

pub record Kept (u v : User) : Type 0 where
  pub id : v.id ≡ u.id
  pub phone : v.phone ≡ u.phone
  pub level : v.level ≡ u.level
  pub deleted : v.is_deleted ≡ u.is_deleted
  pub waiter : v.waiter_id ≡ u.waiter_id
  pub gift : v.giftget ≡ u.giftget
  pub name : KeptText u.name v.name
  pub surname : KeptText u.surname v.surname
  pub middle_name : KeptText u.middle_name v.middle_name
  pub email : KeptText u.email v.email
  pub gender : KeptText u.gender v.gender
  pub birth : KeptDate u.date_of_birth v.date_of_birth

-- The user's row is still there and keeps what the user had.
abbrev pub Holds : User → Table User → Type 0
Holds u t = (v : User) × (first (λ w. w.id == u.id) t.rows ≡ some v) × Kept u v

fill_full : (t : String) (new : Option String) → str_eq t "" ≡ false → fill (some t) new ≡ some t
fill_full t new full = ground arith

fill-KeptText : (old now new : Option String) → KeptText old now → KeptText old (fill now new)
fill-KeptText none now new h = tt
fill-KeptText (some t) now new (inl e) = inl e
fill-KeptText (some t) now new (inr e) = elim (Bool-cases (str_eq t "")) [
  | inl empty ↦ inl ((eq_iff t "").0 empty)
  | inr full ↦ inr (rw e (fill_full t new full))
]

fill-KeptDate : (old now new : Option ℕ) → KeptDate old now → KeptDate old (fill_date now new)
fill-KeptDate none now new h = tt
fill-KeptDate (some d) now new e = rw e refl

linked-Kept :
    (u v : User) (c w : Option String)
    → Kept u v
    → Kept u (record v { iiko_customer_id = c; iiko_wallet_id = w })
linked-Kept u v c w k = record {
  id = k.id;
  phone = k.phone;
  level = k.level;
  deleted = k.deleted;
  waiter = k.waiter;
  gift = k.gift;
  name = k.name;
  surname = k.surname;
  middle_name = k.middle_name;
  email = k.email;
  gender = k.gender;
  birth = k.birth;
}

filled-Kept :
    (r : Readers) (c : IikoCustomer) (u v : User) → Kept u v → Kept u (filled_profile r c v)
unfolding filled_profile
filled-Kept r c u v k = record {
  id = k.id;
  phone = k.phone;
  level = k.level;
  deleted = k.deleted;
  waiter = k.waiter;
  gift = k.gift;
  name = fill-KeptText u.name v.name (compose_iiko_name c.fields) k.name;
  surname =
      fill-KeptText u.surname v.surname
        (extract_iiko_string ("surname" ∷ "lastName" ∷ "familyName" ∷ []) c.fields) k.surname;
  middle_name =
      fill-KeptText u.middle_name v.middle_name
        (extract_iiko_string ("middleName" ∷ "middle_name" ∷ []) c.fields) k.middle_name;
  email = fill-KeptText u.email v.email c.email k.email;
  gender =
      fill-KeptText u.gender v.gender
        (map_iiko_sex r (or_value (value_of "sex" c.fields) (value_of "gender" c.fields))) k.gender;
  birth =
      fill-KeptDate u.date_of_birth v.date_of_birth
        (parse_iiko_birthday r (value_of "birthday" c.fields)) k.birth;
}

save-Holds :
    (u v new : User) (s : Session)
    → first (λ w. w.id == u.id) s.work.users.rows ≡ some v
    → Kept u v
    → Kept u new
    → Holds u (save_user new s).1.work.users
unfolding save_user put_user
save-Holds u v new s e k k' = elim (Bool-cases (user_conflict new s.work)) [
  | inl taken ↦ rw taken (v, e, k)
  | inr free ↦ rw free (new, put_row u.id v new s.work.users.rows e k'.id, k')
]

module _ (u : User) where
  assign_customer-Holds :
      (c : Option String) → Preserves (OfUsers (Holds u)) (assign_customer u.id c)
  unfolding assign_customer the_user user_by_id
  assign_customer-Holds none = record { at = λ s h. h }
  assign_customer-Holds (some c) = record {
    at = λ s (v, e, k). elim (Bool-cases (str_eq c "")) [
      | inl empty ↦ rw empty (v, e, k)
      | inr full ↦ rw full (
          rw e (
            save-Holds u v (record v { iiko_customer_id = some c }) s e k
              (linked-Kept u v (some c) v.iiko_wallet_id k)))
    ];
  }

  assign_wallet-Holds : (w : Option String) → Preserves (OfUsers (Holds u)) (assign_wallet u.id w)
  unfolding assign_wallet assign_wallet_to_user the_user user_by_id free_wallet
  assign_wallet-Holds none = record { at = λ s h. h }
  assign_wallet-Holds (some w) = record {
    at = λ s (v, e, k).
        let found = freed_row u.id w s.work.users.rows ∙ e in
        rw found (
          save-Holds u v (record v { iiko_wallet_id = some w })
            (record s { work = free_wallet w u.id s.work }) found k
            (linked-Kept u v v.iiko_customer_id (some w) k));
  }

  fill_profile-Holds :
      (r : Readers) (c : IikoCustomer) → Preserves (OfUsers (Holds u)) (fill_profile r u.id c)
  unfolding fill_profile the_user user_by_id
  fill_profile-Holds r c = record {
    at = λ s (v, e, k). rw e (save-Holds u v (filled_profile r c v) s e k (filled-Kept r c u v k));
  }

pub Holds-IsKept : (readers : Readers) (u : User) → IsKept readers u.id (Holds u)
Holds-IsKept readers u = record {
  customer = assign_customer-Holds u;
  wallet = assign_wallet-Holds u;
  profile = fill_profile-Holds u readers;
}

pub Kept-refl : (u : User) → Kept u u
Kept-refl u = record {
  id = refl;
  phone = refl;
  level = refl;
  deleted = refl;
  waiter = refl;
  gift = refl;
  name = KeptText_refl u.name;
  surname = KeptText_refl u.surname;
  middle_name = KeptText_refl u.middle_name;
  email = KeptText_refl u.email;
  gender = KeptText_refl u.gender;
  birth = KeptDate_refl u.date_of_birth;
}
  where
    KeptText_refl : (t : Option String) → KeptText t t
    KeptText_refl none = tt
    KeptText_refl (some t) = inr refl

    KeptDate_refl : (d : Option ℕ) → KeptDate d d
    KeptDate_refl none = tt
    KeptDate_refl (some d) = refl
