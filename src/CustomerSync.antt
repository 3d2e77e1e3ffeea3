-- ===== src/CustomerSync.antt =====
-- The synchronisation of a user with iiko: `sync_user_from_iiko` of app/services/auth_service.py. The
-- id of the run, the log lines and the pauses between attempts are left out. `draws` has the random
-- numbers for the card that gets an id; whether the lock of administrative runs was got is an argument.
pub mod Report
pub mod Creation
pub mod Refusals
pub mod Safety
pub mod Keeping
pub mod Tests
use text.Mathlib.Text.{◌==◌ as str_eq}
use sardoba_app_server.Prelude.{
  ℕ, zero, suc, ◌+◌, max, String, Bool, true, false, not, ◌&&◌, Option, none, some, [], ◌∷◌,
  if◌then◌else◌, is_some,
}
use sardoba_app_server.Prelude.Int.{ℤ, pos, eqb_ℤ}
use sardoba_app_server.Json.{num}
use sardoba_app_server.Text.{join}
use sardoba_app_server.Models.{User, Database}
use sardoba_app_server.SyncJobs.{holds_text}
use sardoba_app_server.Otp.{truthy}
use sardoba_app_server.Cards.{Draws}
use sardoba_app_server.Cashback.{find_balance}
use sardoba_app_server.Service
use sardoba_app_server.Customer.{
  CashbackSync, the_user, assign_wallet, sync_cashback_from_wallets, sync_user_with_iiko,
}
use sardoba_app_server.CustomerSync.Report.{
  SyncResult, new_result, fail, add_change, add_warning, add_operation,
}
use sardoba_app_server.CustomerSync.Creation.{
  fetch_iiko_customer, reactivate_if_deleted, or_customer, ensure_card_exists, ensure_customer_safe,
}
use sardoba_app_server.Iiko.Reading.{extract_wallet_id}
use sardoba_app_server.Iiko.{
  IikoCustomer, IikoApi, Readers, World, Sync, proceed, ◌>>=◌, ◌>>◌, pure, local,
}

-- What the report compares with.
pub record Snapshot : Type 0 where
  pub customer_id : Option String
  pub wallet_id : Option String
  pub balance : Option ℤ

abbrev balance_in : ℕ → Database → Option ℤ
balance_in id db = elim (find_balance id db) [ none ↦ none | some b ↦ some b.balance ]

unfoldable pub snapshot : ℕ → User → Database → Snapshot
unfolding find_balance
snapshot id u db = record {
  customer_id = u.iiko_customer_id;
  wallet_id = u.iiko_wallet_id;
  balance = balance_in id db;
}

-- The report on the cashback; the flag says whether the run goes on.
abbrev issue_report : Bool → String → SyncResult → SyncResult × Bool
issue_report true i r = (
  fail (join "cashback_not_refreshed:" i) (add_operation "sync_wallets" "failed" (some i) r),
  false,
)
issue_report false i r = (
  add_warning (join "cashback_sync_issue:" i) (add_operation "sync_wallets" "warning" (some i) r),
  true,
)

unfoldable pub report_cashback : Bool → CashbackSync → SyncResult → SyncResult × Bool
unfolding add_change add_operation add_warning fail
report_cashback admin c r =
    if c.changed
    then (add_operation "sync_wallets" "success" none (add_change "cashback_balance" r), true)
    else elim c.issue [
      | none ↦ (add_operation "sync_wallets" "success" none r, true)
      | some i ↦ issue_report admin i r
    ]

abbrev changed_text : Option String → Option String → Bool
changed_text new old = truthy new && not (elim new [ none ↦ true | some t ↦ holds_text old t ])

abbrev changed_balance : Option ℤ → Option ℤ → Bool
changed_balance none new = false
changed_balance (some old) none = false
changed_balance (some old) (some new) = not (eqb_ℤ new old)

abbrev add_if : Bool → String → SyncResult → SyncResult
add_if b f r = if b then add_change f r else r

unfoldable pub report_changes : Snapshot → Snapshot → Bool → SyncResult → SyncResult
unfolding add_change add_operation
report_changes before after card_created r =
    let r₁ =
      (if card_created
        then add_operation "ensure_card" "success" none (add_change "card" r)
        else add_operation "ensure_card" "skipped" (some "exists") r) in
    add_if (changed_balance before.balance after.balance) "cashback_balance" (
      add_if (changed_text after.customer_id before.customer_id) "iiko_customer_id"
        (add_if (changed_text after.wallet_id before.wallet_id) "iiko_wallet_id" r₁))

module _ {R : Type 0} (api : IikoApi R) (readers : Readers) (draws : ℕ → Draws) where
  abbrev attempt_text : ℕ → String
  attempt_text n = join "attempt_" (readers.str_of (num (pos n)))

  -- What follows an attempt, with or without a customer made by it.
  unfoldable pub after_attempt :
      Sync R (SyncResult × Option IikoCustomer)
      → String
      → ℕ
      → SyncResult
      → Option IikoCustomer
      → Sync R (SyncResult × Option IikoCustomer)
  unfolding fetch_iiko_customer add_operation
  after_attempt again phone n r none = again
  after_attempt again phone n r (some c) = do
    fetched ← fetch_iiko_customer api phone
    pure
        (add_operation "create_customer" "success" (some (attempt_text n)) r, or_customer fetched c)

  -- The attempts to create the customer: the result so far, and the customer once there is one.
  unfoldable pub create_attempts :
      ℕ → ℕ → ℕ → SyncResult → Sync R (SyncResult × Option IikoCustomer)
  unfolding the_user ensure_customer_safe after_attempt add_operation
  create_attempts id zero n r = pure (r, none)
  create_attempts id (suc left) n r =
      let r₁ = add_operation "create_customer" "attempted" (some (attempt_text n)) r in
      let again = create_attempts id left (n + 1) r₁ in
      (do
        u ← local (the_user id)
        created ← ensure_customer_safe api readers draws id u.name u.date_of_birth
        after_attempt again u.phone n r₁ created)

  abbrev retried : CashbackSync → CashbackSync → CashbackSync
  retried before again =
      if again.changed
      then record { changed = true; issue = none }
      else record before { issue = elim again.issue [ none ↦ before.issue | some i ↦ some i ] }

  -- A second fetch of an administrative run whose cashback could not be refreshed.
  unfoldable pub retry_cashback : ℕ → Option IikoCustomer → CashbackSync → Sync R CashbackSync
  unfolding assign_wallet extract_wallet_id sync_cashback_from_wallets
  retry_cashback id none before = pure before
  retry_cashback id (some c) before = do
    local (assign_wallet id (extract_wallet_id c.wallets))
    again ← local (sync_cashback_from_wallets readers id c.wallets)
    pure (retried before again)

  unfoldable pub refresh_wallets : Bool → ℕ → IikoCustomer → Sync R CashbackSync
  unfolding sync_user_with_iiko the_user fetch_iiko_customer reactivate_if_deleted retry_cashback
  refresh_wallets admin id c = do
    first_try ← local (sync_user_with_iiko readers id (some c))
    (if admin && is_some first_try.issue
        then (do
          u ← local (the_user id)
          fetched ← fetch_iiko_customer api u.phone
          refreshed ← reactivate_if_deleted api readers u.phone fetched
          retry_cashback id refreshed first_try)
        else pure first_try)

  -- What follows once there is a customer.
  unfoldable pub sync_found : Bool → ℕ → IikoCustomer → SyncResult → Sync R SyncResult
  unfolding the_user snapshot add_operation refresh_wallets report_cashback ensure_card_exists
      report_changes
  sync_found admin id c r = do
    u ← local (the_user id)
    before ← local (Service.query (snapshot id u))
    cashback ← refresh_wallets admin id c
    let (r', goes_on) =
        report_cashback admin cashback (add_operation "sync_wallets" "attempted" none r)
    (if goes_on
        then (do
          card_created ← ensure_card_exists api readers draws id
          u' ← local (the_user id)
          after ← local (Service.query (snapshot id u'))
          pure (report_changes before after card_created r'))
        else pure r')

  unfoldable pub sync_created : Bool → ℕ → SyncResult × Option IikoCustomer → Sync R SyncResult
  unfolding add_operation fail sync_found
  sync_created admin id (r, none) = pure (
      fail "iiko_customer_create_failed"
        (add_operation "create_customer" "failed" (some "max_attempts_reached") r))
  sync_created admin id (r, some c) = sync_found admin id c r

  unfoldable pub sync_fetched :
      Bool → ℕ → Bool → ℕ → Option IikoCustomer → SyncResult → Sync R SyncResult
  unfolding add_operation fail create_attempts sync_created sync_found
  sync_fetched create_if_missing attempts admin id (some c) r =
      sync_found admin id c (add_operation "fetch_customer" "success" none r)
  sync_fetched create_if_missing attempts admin id none r =
      if create_if_missing
      then (do made ← create_attempts id (max 1 attempts) 1 r; sync_created admin id made)
      else pure (
          fail "iiko_customer_not_found"
            (add_operation "fetch_customer" "failed" (some "not_found") r))

  -- Neither step raises an error of the service, so that the handler of the source is never reached.
  unfoldable pub do_sync : Bool → ℕ → Bool → ℕ → SyncResult → Sync R SyncResult
  unfolding the_user add_operation fail fetch_iiko_customer reactivate_if_deleted sync_fetched
  do_sync create_if_missing attempts admin id result = do
    u ← local (the_user id)
    let r = add_operation "sync_start" "attempted" none result
    (if str_eq u.phone ""
        then pure (
            fail "missing_phone" (add_operation "validate_phone" "failed" (some "missing_phone") r))
        else (if u.is_deleted
            then pure (
                fail "user_deleted"
                  (add_operation "validate_user" "failed" (some "user_deleted") r))
            else (do
              fetched ← fetch_iiko_customer api u.phone
              customer ← reactivate_if_deleted api readers u.phone fetched
              sync_fetched create_if_missing attempts admin id customer
                  (add_operation "fetch_customer" "attempted" none r))))

  unfoldable pub sync_user_from_iiko : Bool → Bool → ℕ → Bool → ℕ → Sync R SyncResult
  unfolding do_sync add_operation fail
  sync_user_from_iiko acquired create_if_missing attempts admin id =
      if admin
      then (if acquired
          then do_sync create_if_missing attempts true id
              (add_operation "admin_sync_lock" "acquired" none new_result)
          else pure (
              fail "admin_sync_lock_busy"
                (add_operation "admin_sync_lock" "failed" (some "lock_busy") new_result)))
      else do_sync create_if_missing attempts false id new_result
