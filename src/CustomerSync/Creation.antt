-- ===== src/CustomerSync/Creation.antt =====
-- Finding and creating the customer of a user, with the card: `_fetch_iiko_customer`,
-- `_reactivate_iiko_customer_if_deleted`, `_ensure_iiko_customer`, `_bind_card_to_user` and
-- `_ensure_card_exists` of app/services/auth_service.py.
use text.Mathlib.Text.{◌==◌ as str_eq}
use sardoba_app_server.Prelude.{
  ℕ, String, Bool, true, false, not, ◌||◌, Option, none, some, [], ◌∷◌, ◌==◌, if◌then◌else◌, count,
  update_rows, is_some,
}
use sardoba_app_server.Json.{bool}
use sardoba_app_server.Failure.{
  Failure, ok, service_error, service_error_from, external_service_bad_request,
}
use sardoba_app_server.Models.{User, Database}
use sardoba_app_server.Otp.{truthy}
use sardoba_app_server.Cards.{Draws, create_card_for_user}
use sardoba_app_server.Service
use sardoba_app_server.Customer.{the_user, sync_user_with_iiko}
use sardoba_app_server.Iiko.Reading.{value_of, is_iiko_deleted}
use sardoba_app_server.Iiko.Payload.{build_customer_payload}
use sardoba_app_server.Iiko.{
  IikoCustomer, IikoApi, Readers, Sync, ◌>>=◌, ◌>>◌, pure, raise, local, call, recover,
}

abbrev pub or_customer : Option IikoCustomer → IikoCustomer → Option IikoCustomer
or_customer none c = some c
or_customer (some d) c = some d

unfoldable pub set_iiko_card_id : ℕ → Option String → Database → Database
set_iiko_card_id card_id none db = db
set_iiko_card_id card_id (some id) db = if str_eq id "" then db else record db {
  cards = record db.cards {
    rows =
        update_rows (λ c. c.id == card_id) (λ c. record c { iiko_card_id = some id }) db.cards.rows;
  };
}

abbrev customer_id_of : User → String
customer_id_of u = elim u.iiko_customer_id [ none ↦ "" | some id ↦ id ]

unfoldable pub card_exists : ℕ → Database → Bool
card_exists id db = not (count (λ c. c.user_id == id) db.cards.rows == 0)

abbrev answer_or_none : Option (Option IikoCustomer) → Option IikoCustomer
answer_or_none none = none
answer_or_none (some c) = c

module _ {R : Type 0} (api : IikoApi R) where
  -- An error of the service counts as a customer that is not there.
  unfoldable pub fetch_iiko_customer : String → Sync R (Option IikoCustomer)
  fetch_iiko_customer phone = recover (call (api.get_customer_by_phone phone)) (λ e. pure none)

module _ {R : Type 0} (api : IikoApi R) (readers : Readers) where
  unfoldable pub reactivate_if_deleted : String → Option IikoCustomer → Sync R (Option IikoCustomer)
  unfolding fetch_iiko_customer is_iiko_deleted value_of
  reactivate_if_deleted phone none = pure none
  reactivate_if_deleted phone (some c) =
      if is_iiko_deleted readers (value_of "isDeleted" c.fields)
      then recover
          (do
            call (api.create_or_update_customer phone (("isDeleted", bool false) ∷ []))
            refreshed ← fetch_iiko_customer api phone
            pure (or_customer refreshed c))
          (λ e. pure (some c))
      else pure (some c)

module _ {R : Type 0} (api : IikoApi R) (readers : Readers) (draws : ℕ → Draws) where
  -- The card is in the session before the call, and stays there when the call fails.
  unfoldable pub bind_card_to_user : ℕ → Sync R (Unit {0})
  unfolding the_user set_iiko_card_id create_card_for_user
  bind_card_to_user id = do
    u ← local (the_user id)
    local (
        Service.unless (truthy u.iiko_customer_id)
          (service_error "Unable to attach card without iiko customer id"))
    next ← local (Service.query (λ db. db.cards.next_id))
    card ← local (create_card_for_user (draws next) id none)
    answer ← call (api.add_card (customer_id_of u) card.card_number card.card_track)
    local (Service.write (set_iiko_card_id card.id answer))

  -- `user.cards`, which is read once.
  unfoldable pub has_cards : ℕ → Sync R Bool
  unfolding card_exists
  has_cards id w = elim w.cards_loaded [
    | some b ↦ (ok b, w)
    | none ↦ let b = card_exists id w.session.work in (ok b, record w { cards_loaded = some b })
  ]

  unfoldable pub ensure_iiko_customer : ℕ → Option String → Option ℕ → Sync R (Option IikoCustomer)
  unfolding the_user build_customer_payload sync_user_with_iiko has_cards bind_card_to_user
  ensure_iiko_customer id name date_of_birth = do
    u ← local (the_user id)
    response ← call (
        api.create_or_update_customer u.phone (build_customer_payload readers u name date_of_birth))
    local (sync_user_with_iiko readers id response)
    cards ← has_cards id
    (if cards then pure tt else bind_card_to_user id)
    pure response

  unfoldable pub ensure_card_exists : ℕ → Sync R Bool
  unfolding the_user card_exists bind_card_to_user
  ensure_card_exists id = do
    u ← local (the_user id)
    exists ← local (Service.query (card_exists id))
    (if not (truthy u.iiko_customer_id) || exists
        then pure false
        else recover (do bind_card_to_user id; pure true) (λ e. pure false))

  -- A refusal with status 400 is passed on as such, any other error counts as no customer.
  abbrev pub creation_error : Failure → Sync R (Option IikoCustomer)
  creation_error (service_error_from m status) =
      if status == 400 then raise external_service_bad_request else pure none
  creation_error e = pure none

  unfoldable pub ensure_customer_safe : ℕ → Option String → Option ℕ → Sync R (Option IikoCustomer)
  unfolding ensure_iiko_customer ensure_card_exists
  ensure_customer_safe id name date_of_birth = do
    made ←
        recover (do c ← ensure_iiko_customer id name date_of_birth; pure (some c))
          (λ e. do creation_error e; pure none)
    (if is_some made then (do ensure_card_exists id; pure tt) else pure tt)
    pure (answer_or_none made)
