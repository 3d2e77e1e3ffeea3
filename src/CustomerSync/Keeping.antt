-- ===== src/CustomerSync/Keeping.antt =====
-- What the changes to users keep is kept by a whole synchronisation, whatever iiko answers and however
-- the run ends: app/services/auth_service.py.
use sardoba_app_server.Prelude.{
  ℕ, zero, suc, ◌+◌, String, Bool, Option, none, some, inl, inr, Bool-cases, Option-cases,
}
use text.Mathlib.Text.{◌==◌ as str_eq}
use sardoba_app_server.Failure.{Failure, service_error_from}
use sardoba_app_server.Models.{User, Table, Database}
use sardoba_app_server.Cards.{Draws}
use sardoba_app_server.Cards.Untouched.{create_card_for_user-keeps}
use sardoba_app_server.Service.Preserves.{preserves_rules, Preserves-write}
use sardoba_app_server.Iiko.{IikoCustomer, IikoApi, Readers, Sync, local}
use sardoba_app_server.Iiko.Keeping.{Keeps, keeps_rules, Keeps-local, Keeps-bind, Keeps-pure}
use sardoba_app_server.Customer.{CashbackSync, the_user}
use sardoba_app_server.Customer.Keeping.{
  OfUsers, IsKept, the_user-Preserves, sync_cashback-Preserves, sync_user-Preserves,
}
use sardoba_app_server.CustomerSync.Report.{SyncResult, add_operation}
use sardoba_app_server.CustomerSync.Creation.{
  fetch_iiko_customer, reactivate_if_deleted, set_iiko_card_id, bind_card_to_user, has_cards,
  ensure_iiko_customer, ensure_card_exists, creation_error, ensure_customer_safe,
}
use sardoba_app_server.CustomerSync.{
  after_attempt, create_attempts, retry_cashback, refresh_wallets, sync_found, sync_created,
  sync_fetched, do_sync, sync_user_from_iiko,
}

module _ {R : Type 0} (api : IikoApi R) (readers : Readers) (draws : ℕ → Draws) (id : ℕ)
    (Q : Table User → Type 0) (k : IsKept readers id Q) where
  user-Keeps : Keeps (OfUsers Q) {R = R} (local (the_user id))
  user-Keeps = Keeps-local (OfUsers Q) (the_user id) (the_user-Preserves Q id)

  fetch-Keeps : (phone : String) → Keeps (OfUsers Q) (fetch_iiko_customer api phone)
  unfolding fetch_iiko_customer
  fetch-Keeps phone = search keeps_rules depth 9

  reactivate-Keeps :
      (phone : String) (c : Option IikoCustomer)
      → Keeps (OfUsers Q) (reactivate_if_deleted api readers phone c)
  unfolding reactivate_if_deleted
  reactivate-Keeps phone none = search keeps_rules
  reactivate-Keeps phone (some c) = search (keeps_rules, fetch-Keeps) depth 12

  numbered-keeps :
      (card_id : ℕ) (answer : Option String) (db : Database)
      → OfUsers Q db
      → OfUsers Q (set_iiko_card_id card_id answer db)
  unfolding set_iiko_card_id
  numbered-keeps card_id none db h = h
  numbered-keeps card_id (some t) db h = elim (Bool-cases (str_eq t "")) [
    | inl e ↦ rw e h
    | inr e ↦ rw e h
  ]

  bind_card-Keeps : Keeps (OfUsers Q) (bind_card_to_user api readers draws id)
  unfolding bind_card_to_user
  bind_card-Keeps =
      let card = create_card_for_user-keeps (OfUsers Q) (λ db t h. h) in
      let numbered = λ (n : ℕ) (t : Option String).
        Preserves-write (OfUsers Q) (set_iiko_card_id n t) (numbered-keeps n t) in
      search (keeps_rules, preserves_rules, user-Keeps, card, numbered) depth 30

  has_cards-Keeps : Keeps (OfUsers Q) (has_cards api readers draws id)
  unfolding has_cards
  has_cards-Keeps = record {
    at = λ w h. elim (Option-cases w.cards_loaded) [
      | inl e ↦ rw (e, has_cards) h
      | inr (b, e) ↦ rw (e, has_cards) h
    ];
  }

  ensure_iiko_customer-Keeps :
      (name : Option String) (date_of_birth : Option ℕ)
      → Keeps (OfUsers Q) (ensure_iiko_customer api readers draws id name date_of_birth)
  unfolding ensure_iiko_customer
  ensure_iiko_customer-Keeps name date_of_birth =
      let synced = λ (c : Option IikoCustomer). sync_user-Preserves Q readers id c k in
      search (keeps_rules, preserves_rules, user-Keeps, synced, has_cards-Keeps, bind_card-Keeps)
        depth 30

  ensure_card_exists-Keeps : Keeps (OfUsers Q) (ensure_card_exists api readers draws id)
  unfolding ensure_card_exists
  ensure_card_exists-Keeps =
      search (keeps_rules, preserves_rules, user-Keeps, bind_card-Keeps) depth 30

  creation_error-Keeps :
      (e : Failure) → Keeps (OfUsers Q) {R = R} (creation_error api readers draws e)
  creation_error-Keeps (service_error_from m status) = search keeps_rules
  creation_error-Keeps e = Keeps-pure (OfUsers Q) none

  ensure_safe-Keeps :
      (name : Option String) (date_of_birth : Option ℕ)
      → Keeps (OfUsers Q) (ensure_customer_safe api readers draws id name date_of_birth)
  unfolding ensure_customer_safe
  ensure_safe-Keeps name date_of_birth =
      search
        (
          keeps_rules, preserves_rules, ensure_iiko_customer-Keeps, creation_error-Keeps,
          ensure_card_exists-Keeps,
        )
        depth 30

  after_attempt-Keeps :
      (again : Sync R (SyncResult × Option IikoCustomer)) (phone : String) (n : ℕ) (r : SyncResult)
      (created : Option IikoCustomer)
      → Keeps (OfUsers Q) again
      → Keeps (OfUsers Q) (after_attempt api readers draws again phone n r created)
  unfolding after_attempt
  after_attempt-Keeps again phone n r none h = h
  after_attempt-Keeps again phone n r (some c) h = search (keeps_rules, fetch-Keeps)

  create_attempts-Keeps :
      (left n : ℕ) (r : SyncResult)
      → Keeps (OfUsers Q) (create_attempts api readers draws id left n r)
  unfolding create_attempts
  create_attempts-Keeps zero n r = search keeps_rules
  create_attempts-Keeps (suc left) n r =
      Keeps-bind (OfUsers Q) (local (the_user id)) _ user-Keeps (λ u.
        Keeps-bind (OfUsers Q) (ensure_customer_safe api readers draws id u.name u.date_of_birth) _
          (ensure_safe-Keeps u.name u.date_of_birth)
          (λ created.
            after_attempt-Keeps _ u.phone n _ created (create_attempts-Keeps left (n + 1) _)))

  retry-Keeps :
      (c : Option IikoCustomer) (before : CashbackSync)
      → Keeps (OfUsers Q) (retry_cashback api readers draws id c before)
  unfolding retry_cashback
  retry-Keeps none before = search keeps_rules
  retry-Keeps (some c) before =
      search (keeps_rules, preserves_rules, k.wallet, sync_cashback-Preserves) depth 30

  refresh-Keeps :
      (admin : Bool) (c : IikoCustomer)
      → Keeps (OfUsers Q) (refresh_wallets api readers draws admin id c)
  unfolding refresh_wallets
  refresh-Keeps admin c =
      let synced = sync_user-Preserves Q readers id (some c) k in
      search
        (
          keeps_rules, preserves_rules, user-Keeps, synced, fetch-Keeps, reactivate-Keeps,
          retry-Keeps,
        )
        depth 30

  sync_found-Keeps :
      (admin : Bool) (c : IikoCustomer) (r : SyncResult)
      → Keeps (OfUsers Q) (sync_found api readers draws admin id c r)
  unfolding sync_found
  sync_found-Keeps admin c r =
      search (keeps_rules, preserves_rules, user-Keeps, refresh-Keeps, ensure_card_exists-Keeps)
        depth 30

  sync_created-Keeps :
      (admin : Bool) (made : SyncResult × Option IikoCustomer)
      → Keeps (OfUsers Q) (sync_created api readers draws admin id made)
  unfolding sync_created
  sync_created-Keeps admin (r, none) = search keeps_rules
  sync_created-Keeps admin (r, some c) = sync_found-Keeps admin c r

  sync_fetched-Keeps :
      (create_if_missing : Bool) (attempts : ℕ) (admin : Bool) (c : Option IikoCustomer)
      (r : SyncResult)
      → Keeps (OfUsers Q) (sync_fetched api readers draws create_if_missing attempts admin id c r)
  unfolding sync_fetched
  sync_fetched-Keeps create_if_missing attempts admin none r =
      search (keeps_rules, create_attempts-Keeps, sync_created-Keeps) depth 15
  sync_fetched-Keeps create_if_missing attempts admin (some c) r =
      sync_found-Keeps admin c (add_operation "fetch_customer" "success" none r)

  do_sync-Keeps :
      (create_if_missing : Bool) (attempts : ℕ) (admin : Bool) (r : SyncResult)
      → Keeps (OfUsers Q) (do_sync api readers draws create_if_missing attempts admin id r)
  unfolding do_sync
  do_sync-Keeps create_if_missing attempts admin r =
      search (keeps_rules, user-Keeps, fetch-Keeps, reactivate-Keeps, sync_fetched-Keeps) depth 15

  -- The whole run.
  pub sync-Keeps :
      (acquired create_if_missing : Bool) (attempts : ℕ) (admin : Bool)
      → Keeps
          (OfUsers Q)
          (sync_user_from_iiko api readers draws acquired create_if_missing attempts admin id)
  unfolding sync_user_from_iiko
  sync-Keeps acquired create_if_missing attempts admin = search (keeps_rules, do_sync-Keeps) depth 9
