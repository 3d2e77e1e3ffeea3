-- ===== src/Customer/Wallets.antt =====
-- Wallets, customers and emails of users stay unique, and a wallet goes to the user that iiko says:
-- app/services/auth_service.py.
use text.Mathlib.TextPositions.{eq_refl}
use sardoba_app_server.Prelude.{
  ℕ, ◌≡◌, refl, String, Bool, false, not, ◌&&◌, Option, none, some, List, [], ◌∷◌, arith, count,
  first, update_rows, ◌==◌, if◌then◌else◌, first-holds, ==_iff, subst, sym, ◌∙◌,
}
use sardoba_app_server.Prelude.Unique.{
  HasIds, IsUniqueColumn, holds_text, count-update_rows_same, count-others,
}
use sardoba_app_server.Failure.{ok}
use sardoba_app_server.Models.{User, Table, Database}
use sardoba_app_server.Auth.{put_user}
use sardoba_app_server.Service.{Session}
use sardoba_app_server.Customer.{
  others, user_conflict, save_user, free_wallet, the_user, assign_wallet_to_user, user_by_id,
}

-- The table of users has ids, and no two users have one wallet, customer or email.
pub record IsUserTable (t : Table User) : Type 0 where
  pub ids : HasIds (λ (u : User). u.id) t.next_id t.rows
  pub wallets : IsUniqueColumn (λ (u : User). u.iiko_wallet_id) t.rows
  pub customers : IsUniqueColumn (λ (u : User). u.iiko_customer_id) t.rows
  pub emails : IsUniqueColumn (λ (u : User). u.email) t.rows

-- Whoever else had the wallet has none.
abbrev pub released : String → User → User
released w u = if holds_text u.iiko_wallet_id w then record u { iiko_wallet_id = none } else u

abbrev pub released? : String → Option User → Option User
released? w none = none
released? w (some u) = some (released w u)

other_row :
    (id other : ℕ) (w : String) (new : User) (us : List User)
    → (id == other) ≡ false
    → new.id ≡ id
    → first
        (λ u. u.id == other)
        (update_rows
          (λ v. v.id == new.id)
          (λ _. new)
          (update_rows
            (λ v. holds_text v.iiko_wallet_id w && not (v.id == id))
            (λ v. record v { iiko_wallet_id = none })
            us))
      ≡ released? w (first (λ u. u.id == other) us)
unfolding first update_rows
other_row id other w new [] h e = refl
other_row id other w new (u ∷ us) h e = ground (arith, other_row id other w new us h e)

pub freed_row :
    (id : ℕ) (w : String) (us : List User)
    → first
        (λ u. u.id == id)
        (update_rows
          (λ v. holds_text v.iiko_wallet_id w && not (v.id == id))
          (λ v. record v { iiko_wallet_id = none })
          us)
      ≡ first (λ u. u.id == id) us
unfolding first update_rows
freed_row id w [] = refl
freed_row id w (u ∷ us) = ground (arith, freed_row id w us)

pub put_row :
    (id : ℕ) (u new : User) (us : List User)
    → first (λ v. v.id == id) us ≡ some u
    → new.id ≡ id
    → first (λ v. v.id == id) (update_rows (λ v. v.id == new.id) (λ _. new) us) ≡ some new
unfolding first update_rows
put_row id u new [] e same = cc
put_row id u new (v ∷ us) e same = ground (arith, put_row id u new us)

freed_count :
    (id n : ℕ) (w : String)
    → n ≡ id
    → (us : List User)
    → count
        (λ v. holds_text v.iiko_wallet_id w && not (v.id == n))
        (update_rows
          (λ v. holds_text v.iiko_wallet_id w && not (v.id == id))
          (λ v. record v { iiko_wallet_id = none })
          us)
      ≡ 0
unfolding count update_rows
freed_count id n w e [] = refl
freed_count id n w e (u ∷ us) = ground (arith, freed_count id n w e us)

module _ (id : ℕ) (w : String) (db : Database) (u : User) (h : IsUserTable db.users)
    (e : user_by_id id db ≡ some u) where
  own_id : u.id ≡ id
  unfolding user_by_id
  own_id = (==_iff u.id id).0 (first-holds (λ (v : User). v.id == id) db.users.rows e)

  own_row : first (λ (v : User). v.id == u.id) db.users.rows ≡ some u
  unfolding user_by_id
  own_row = subst (λ n. first (λ (v : User). v.id == n) db.users.rows ≡ some u) (sym own_id) e

  wallet_free : others (λ v. v.iiko_wallet_id) u (some w) (free_wallet w id db) ≡ 0
  unfolding free_wallet
  wallet_free = freed_count id u.id w own_id db.users.rows

  column_free :
      (column : User → Option String) (v : Option String)
      → ((x : User) → column (record x { iiko_wallet_id = none }) ≡ column x)
      → IsUniqueColumn column db.users.rows
      → column u ≡ v
      → others column u v (free_wallet w id db) ≡ 0
  unfolding free_wallet
  column_free column none keep unique same = refl
  column_free column (some t) keep unique same =
      let p : User → Bool = λ v. holds_text (column v) t && not (v.id == u.id) in
      count-update_rows_same p (λ v. holds_text v.iiko_wallet_id w && not (v.id == id))
        (λ v. record v { iiko_wallet_id = none }) (λ x _. rw (keep x) refl) db.users.rows
      ∙ count-others (λ v. holds_text (column v) t) (λ v. v.id == u.id) db.users.rows u (unique t)
          own_row (rw same (eq_refl t))

  not_taken : user_conflict (record u { iiko_wallet_id = some w }) (free_wallet w id db) ≡ false
  unfolding user_conflict
  not_taken =
      rw
        (
          wallet_free,
          column_free (λ v. v.iiko_customer_id) u.iiko_customer_id (λ x. refl) h.customers refl,
          column_free (λ v. v.email) u.email (λ x. refl) h.emails refl,
        )
        refl

-- Where ids, wallets, customers and emails of users are unique, assigning a wallet to an existing user
-- succeeds, whoever had it: the user has it then and is otherwise as before, and any other user is as
-- before, except that one who had the wallet has none.
pub assign_wallet_to_user_lem :
    (id other : ℕ) (w : String) (u : User) (s : Session)
    → IsUserTable s.work.users
    → user_by_id id s.work ≡ some u
    → (id == other) ≡ false
    → let (r, s') = assign_wallet_to_user id w s in
      (r ≡ ok tt)
      × (user_by_id id s'.work ≡ some (record u { iiko_wallet_id = some w }))
      × (user_by_id other s'.work ≡ released? w (user_by_id other s.work))
unfolding assign_wallet_to_user the_user save_user user_by_id put_user free_wallet
assign_wallet_to_user_lem id other w u s h e apart =
    let found = freed_row id w s.work.users.rows ∙ e in
    let own = own_id id w s.work u h e in
    let new : User = record u { iiko_wallet_id = some w } in
    rw found (
      rw (not_taken id w s.work u h e)
        (refl, put_row id u new _ found own, other_row id other w new s.work.users.rows apart own))
