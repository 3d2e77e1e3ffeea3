-- ===== src/CustomerSync/Refusals.antt =====
-- When a synchronisation does nothing, and what it reports when iiko cannot be asked:
-- app/services/auth_service.py.
use text.Mathlib.Text.{◌==◌ as str_eq}
use sardoba_app_server.Prelude.{
  ℕ, ◌≡◌, refl, String, Bool, true, false, Option, none, some, inl, inr, Bool-cases, if◌then◌else◌,
}
use sardoba_app_server.Failure.{Failure, Outcome, ok, raised, is_service_error}
use sardoba_app_server.Models.{User}
use sardoba_app_server.Cards.{Draws}
use sardoba_app_server.Customer.{the_user, user_by_id}
use sardoba_app_server.Iiko.{IikoApi, Readers, World}
use sardoba_app_server.CustomerSync.Report.{SyncResult, fail, add_operation, new_result}
use sardoba_app_server.CustomerSync.Creation.{fetch_iiko_customer, reactivate_if_deleted}
use sardoba_app_server.CustomerSync.{do_sync, sync_fetched, sync_user_from_iiko}

-- A result that reports a failure, with its reason.
abbrev pub FailsWith : String → Outcome SyncResult → Type 0
FailsWith reason (ok r) = (r.ok? ≡ false) × (r.error ≡ some reason)
FailsWith reason (raised e) = ⊥

-- Why a run does not start.
abbrev user_refusal : User → Option String
user_refusal u =
    if str_eq u.phone ""
    then some "missing_phone"
    else (if u.is_deleted then some "user_deleted" else none)

abbrev pub refusal : Bool → Bool → User → Option String
refusal acquired false u = user_refusal u
refusal true true u = user_refusal u
refusal false true u = some "admin_sync_lock_busy"

module _ {R : Type 0} (api : IikoApi R) (readers : Readers) (draws : ℕ → Draws) where
  do_sync_refused :
      (create_if_missing : Bool) (attempts : ℕ) (admin : Bool) (id : ℕ) (result : SyncResult)
      (u : User) (w : World R) (reason : String)
      → user_by_id id w.session.work ≡ some u
      → user_refusal u ≡ some reason
      → let (r, w') = do_sync api readers draws create_if_missing attempts admin id result w in
        FailsWith reason r × (w' ≡ w)
  unfolding do_sync the_user user_by_id fail add_operation
  do_sync_refused create_if_missing attempts admin id result u w reason e h =
      elim (Bool-cases (str_eq u.phone "")) [
        | inl missing ↦ rw (e, missing) ((refl, rw missing at h), refl)
        | inr there ↦ elim (Bool-cases u.is_deleted) [
          | inl gone ↦ rw (e, there, gone) ((refl, rw (there, gone) at h), refl)
          | inr active ↦ cc (rw (there, active) at h)
        ]
      ]

  -- A run for a user that is deleted or has no phone, and an administrative run without its lock, fail
  -- with that reason: iiko is not called, and the session is as it was.
  pub sync_refused :
      (acquired create_if_missing : Bool) (attempts : ℕ) (admin : Bool) (id : ℕ) (u : User)
      (w : World R) (reason : String)
      → user_by_id id w.session.work ≡ some u
      → refusal acquired admin u ≡ some reason
      → let (r, w') =
          sync_user_from_iiko api readers draws acquired create_if_missing attempts admin id w in
        FailsWith reason r × (w' ≡ w)
  unfolding sync_user_from_iiko fail add_operation
  sync_refused acquired create_if_missing attempts false id u w reason e h =
      do_sync_refused create_if_missing attempts false id new_result u w reason e h
  sync_refused true create_if_missing attempts true id u w reason e h =
      do_sync_refused create_if_missing attempts true id
        (add_operation "admin_sync_lock" "acquired" none new_result) u w reason e h
  sync_refused false create_if_missing attempts true id u w reason e h = ((refl, h), refl)

  -- Where the lookup of the customer raises an error of the service, such as a busy lock, a run that may
  -- not create the customer fails, reports that the customer was not found, and has changed nothing: only that
  -- lookup was made.
  pub sync_lookup_failed :
      (attempts id : ℕ) (u : User) (w : World R) (error : Failure) (after : R)
      → user_by_id id w.session.work ≡ some u
      → refusal true false u ≡ none
      → api.get_customer_by_phone u.phone w.remote ≡ (raised error, after)
      → is_service_error error ≡ true
      → let (r, w') = sync_user_from_iiko api readers draws true false attempts false id w in
        FailsWith "iiko_customer_not_found" r × (w' ≡ record w { remote = after })
  unfolding sync_user_from_iiko do_sync the_user user_by_id fetch_iiko_customer
      reactivate_if_deleted sync_fetched fail add_operation
  sync_lookup_failed attempts id u w error after e h f s = elim (Bool-cases (str_eq u.phone "")) [
    | inl missing ↦ cc (rw missing at h)
    | inr there ↦ elim (Bool-cases u.is_deleted) [
      | inl gone ↦ cc (rw (there, gone) at h)
      | inr active ↦ rw (e, there, active) (rw f (rw s ((refl, refl), refl)))
    ]
  ]
