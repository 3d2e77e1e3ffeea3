-- ===== src/ProfileSync.antt =====
-- Sending profile changes to iiko: app/services/iiko_profile_sync_service.py.
pub mod Pending
mod Tests
use text.Mathlib.Text.{◌==◌ as str_eq}
use sardoba_app_server.Prelude.{
  ℕ, String, Option, none, some, List, [], ◌∷◌, if◌then◌else◌, is_some,
}
use sardoba_app_server.Prelude.Dict.{Dict, lookup, insert}
use sardoba_app_server.Json.{Json, null, bool, num, str, arr, obj}
use sardoba_app_server.Models.{User}
use sardoba_app_server.Auth.{put_user}
use sardoba_app_server.Service
use sardoba_app_server.Customer.{the_user}
use sardoba_app_server.Iiko.{
  IikoApi, Sync, proceed, ◌>>=◌, ◌>>◌, pure, local, call, handle, recover,
}

-- None is skipped.
unfoldable pub merge_update : Dict Json → String → Json → Dict Json
unfolding insert
merge_update merged key null = merged
merge_update merged key (bool b) = insert key (bool b) merged
merge_update merged key (num n) = insert key (num n) merged
merge_update merged key (str s) = insert key (str s) merged
merge_update merged key (arr a) = insert key (arr a) merged
merge_update merged key (obj o) = insert key (obj o) merged

unfoldable pub merge_updates : Dict Json → Dict Json → Dict Json
unfolding merge_update
merge_updates merged [] = merged
merge_updates merged ((key, value) ∷ updates) =
    merge_updates (merge_update merged key value) updates

abbrev pub pending_of : Option (Dict Json) → Dict Json
pending_of none = []
pending_of (some d) = d

-- `updates` as None counts as no update.
unfoldable pub compose_payload : Option (Dict Json) → Dict Json → Dict Json
unfolding merge_updates
compose_payload pending updates = merge_updates (pending_of pending) updates

-- payload_to_send.setdefault("comment", …)
unfoldable pub with_comment : Dict Json → Dict Json
unfolding lookup insert
with_comment payload =
    if is_some (lookup "comment" payload)
    then payload
    else insert "comment" (str "CASHBACK MOBILE APP CLIENT") payload

module _ {R : Type 0} (api : IikoApi R) where
  unfoldable pub set_pending : ℕ → Option (Dict Json) → Sync R (Unit {0})
  unfolding the_user put_user
  set_pending id pending = do
    u ← local (the_user id)
    local (Service.write (put_user (record u { pending_iiko_profile_update = pending })))

  unfoldable pub send_payload : ℕ → Dict Json → Sync R (Unit {0})
  unfolding the_user with_comment set_pending
  send_payload id payload = do
    u ← local (the_user id)
    sent ←
        recover (do call (api.create_or_update_customer u.phone (with_comment payload)); pure none)
          (λ e. pure (some payload))
    set_pending id sent

  unfoldable pub send_if_any : ℕ → Dict Json → Sync R (Unit {0})
  unfolding send_payload
  send_if_any id [] = pure tt
  send_if_any id (p ∷ ps) = send_payload id (p ∷ ps)

  unfoldable pub sync_profile_updates : ℕ → Dict Json → Sync R (Unit {0})
  unfolding the_user compose_payload send_if_any
  sync_profile_updates id updates = do
    u ← local (the_user id)
    send_if_any id (compose_payload u.pending_iiko_profile_update updates)

  unfoldable pub flush_pending_updates : ℕ → Sync R (Unit {0})
  unfolding the_user send_if_any
  flush_pending_updates id = do
    u ← local (the_user id)
    send_if_any id (pending_of u.pending_iiko_profile_update)
