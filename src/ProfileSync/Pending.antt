-- ===== src/ProfileSync/Pending.antt =====
-- Profile changes survive until iiko takes them: app/services/iiko_profile_sync_service.py.
use text.Mathlib.Text.{◌==◌ as str_eq}
use sardoba_app_server.Prelude.{
  ℕ, ◌≡◌, refl, String, Bool, true, false, Option, none, some, List, [], ◌∷◌, arith, first-holds,
  ◌==◌, if◌then◌else◌, ◌∙◌, ap, ==_iff, sym, subst,
}
use sardoba_app_server.Prelude.Dict.{Dict, lookup, lookup-insert}
use sardoba_app_server.Json.{Json, null, bool, num, str, arr, obj}
use sardoba_app_server.Failure.{Failure, raised, is_service_error}
use sardoba_app_server.Models.{User}
use sardoba_app_server.Auth.{put_user}
use sardoba_app_server.Customer.{user_by_id, the_user}
use sardoba_app_server.Customer.Wallets.{put_row}
use sardoba_app_server.Iiko.{IikoApi, World}
use sardoba_app_server.ProfileSync.{
  merge_update, merge_updates, pending_of, compose_payload, with_comment, set_pending, send_payload,
  send_if_any, sync_profile_updates,
}

-- The last value for a key that is not None, and `before` if there is none.
abbrev newest : Json → Option Json → Option Json
newest null before = before
newest v before = some v

abbrev pub latest : String → Dict Json → Option Json → Option Json
latest k [] before = before
latest k ((j, v) ∷ d) before = latest k d (if str_eq j k then newest v before else before)

lookup-merge_update :
    (k j : String) (v : Json) (d : Dict Json)
    → lookup k (merge_update d j v) ≡ (if str_eq j k then newest v (lookup k d) else lookup k d)
unfolding merge_update
lookup-merge_update k j null d = ground arith
lookup-merge_update k j (bool b) d = lookup-insert j k (bool b) d
lookup-merge_update k j (num n) d = lookup-insert j k (num n) d
lookup-merge_update k j (str s) d = lookup-insert j k (str s) d
lookup-merge_update k j (arr a) d = lookup-insert j k (arr a) d
lookup-merge_update k j (obj o) d = lookup-insert j k (obj o) d

lookup-merge_updates :
    (k : String) (d e : Dict Json) → lookup k (merge_updates d e) ≡ latest k e (lookup k d)
unfolding merge_updates
lookup-merge_updates k d [] = refl
lookup-merge_updates k d ((j, v) ∷ e) =
    lookup-merge_updates k (merge_update d j v) e ∙ ap (latest k e) (lookup-merge_update k j v d)

module _ {R : Type 0} (api : IikoApi R) where
  abbrev after : ℕ → Dict Json → World R → World R
  after id updates w = (sync_profile_updates api id updates w).1

  -- One report after the other.
  abbrev pub after_all : ℕ → List (Dict Json) → World R → World R
  after_all id [] w = w
  after_all id (d ∷ ds) w = after_all id ds (after id d w)

latest-none :
    (k : String) (d : Dict Json) (before : Option Json) → latest k d before ≡ none → before ≡ none
latest-none k [] before e = e
latest-none k ((j, v) ∷ d) before e =
    newest-none (str_eq j k) v before
      (latest-none k d (if str_eq j k then newest v before else before) e)
  where
    newest-none :
        (b : Bool) (v : Json) (before : Option Json)
        → (if b then newest v before else before) ≡ none
        → before ≡ none
    newest-none false v before e = e
    newest-none true null before e = e
    newest-none true (bool b) before e = cc
    newest-none true (num n) before e = cc
    newest-none true (str s) before e = cc
    newest-none true (arr a) before e = cc
    newest-none true (obj o) before e = cc

-- The user's row waits with this value for the key.
abbrev pub Waits : {R : Type 0} → ℕ → String → Option Json → World R → Type 0
Waits id k v w =
    (u : User) × (user_by_id id w.session.work ≡ some u)
    × (lookup k (pending_of u.pending_iiko_profile_update) ≡ v)

-- iiko answers every report with an error of the service.
abbrev pub IsDown : {R : Type 0} → IikoApi R → Type 0
IsDown {R} api =
    (phone : String) (payload : Dict Json) (r : R)
    → (e : Failure) × ((api.create_or_update_customer phone payload r).0 ≡ raised e)
      × (is_service_error e ≡ true)

module _ {R : Type 0} (api : IikoApi R) (down : IsDown api) (id : ℕ) (k : String) where
  send-Waits :
      (payload : Dict Json) (u : User) (w : World R)
      → user_by_id id w.session.work ≡ some u
      → Waits id k (lookup k payload) (send_payload api id payload w).1
  unfolding send_payload set_pending the_user user_by_id put_user
  send-Waits payload u w e =
      let (error, failed, service) = down u.phone (with_comment payload) w.remote in
      let own : u.id ≡ id =
        (==_iff u.id id).0 (first-holds (λ (v : User). v.id == id) w.session.work.users.rows e) in
      let new : User = record u { pending_iiko_profile_update = some payload } in
      (
        new,
        rw e (rw failed (rw service (rw e (put_row id u new w.session.work.users.rows e own)))),
        refl,
      )

  send_if_any-Waits :
      (payload : Dict Json) (u : User) (w : World R)
      → user_by_id id w.session.work ≡ some u
      → (lookup k payload ≡ none → lookup k (pending_of u.pending_iiko_profile_update) ≡ none)
      → Waits id k (lookup k payload) (send_if_any api id payload w).1
  unfolding send_if_any lookup
  send_if_any-Waits [] u w e none_before = (u, e, none_before refl)
  send_if_any-Waits (p ∷ ps) u w e none_before = send-Waits (p ∷ ps) u w e

  after-Waits :
      (d : Dict Json) (v : Option Json) (w : World R)
      → Waits id k v w
      → Waits id k (latest k d v) (after api id d w)
  unfolding sync_profile_updates the_user user_by_id compose_payload
  after-Waits d v w (u, e, same) =
      let pending = pending_of u.pending_iiko_profile_update in
      let merged = lookup-merge_updates k pending d in
      subst (λ x. Waits id k x (after api id d w)) (merged ∙ ap (latest k d) same)
        (rw (e, after)
          (send_if_any-Waits (merge_updates pending d) u w e
            (λ n. latest-none k d (lookup k pending) (sym merged ∙ n))))

-- The changes of several reports, one after the other.
abbrev pub latest_all : String → List (Dict Json) → Option Json → Option Json
latest_all k [] before = before
latest_all k (d ∷ ds) before = latest_all k ds (latest k d before)

-- While iiko answers with errors no profile change is lost: after any number of reports the user's row
-- waits, for each key, with the last value that a report had for it, and with what waited before if none
-- had one.
pub after_all-Waits :
    {R : Type 0} (api : IikoApi R) (down : IsDown api) (id : ℕ) (k : String) (ds : List (Dict Json))
    (v : Option Json) (w : World R)
    → Waits id k v w
    → Waits id k (latest_all k ds v) (after_all api id ds w)
after_all-Waits api down id k [] v w h = h
after_all-Waits api down id k (d ∷ ds) v w h =
    after_all-Waits api down id k ds (latest k d v) (after api id d w)
      (after-Waits api down id k d v w h)
