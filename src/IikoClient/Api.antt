-- ===== src/IikoClient/Api.antt =====
-- The client of app/services/iiko_service.py as the API that app/services/auth_service.py calls, with what
-- the callers read from its answers.
use sardoba_app_server.Prelude.{
  ℕ, ◌≡◌, refl, String, true, false, Option, none, some, List, [], ◌∷◌, map,
}
use sardoba_app_server.Prelude.Dict.{Dict, lookup}
use sardoba_app_server.Json.{Json, str, arr, obj, Items, nil, cons, dict_of}
use sardoba_app_server.Failure.{ok, ◌>>=◌, service_error, is_service_error}
use sardoba_app_server.Models.{User}
use sardoba_app_server.Cards.{Draws, IikoCard, or_text}
use sardoba_app_server.Customer.{user_by_id}
use sardoba_app_server.CustomerSync.{sync_user_from_iiko}
use sardoba_app_server.CustomerSync.Refusals.{FailsWith, refusal, sync_lookup_failed}
use sardoba_app_server.Iiko.{IikoWallet, IikoCustomer, IikoApi, Readers, World}
use sardoba_app_server.IikoClient.Wire.{Net, Login, user_lock_key}
use sardoba_app_server.IikoClient.{
  with_user_lock, get_customer_by_phone, create_or_update_customer, add_card,
}

abbrev text_in : Option Json → Option String
text_in (some (str t)) = some t
text_in _ = none

unfoldable pub text_at : String → Dict Json → Option String
unfolding lookup
text_at key d = text_in (lookup key d)

-- The objects of a list; anything else counts as an empty list.
unfoldable pub objects_of : Items → List (Dict Json)
objects_of nil = []
objects_of (cons (obj fs) xs) = dict_of fs ∷ objects_of xs
objects_of (cons _ xs) = objects_of xs

abbrev list_in : Option Json → List (Dict Json)
list_in (some (arr xs)) = objects_of xs
list_in _ = []

unfoldable pub wallet_of : Dict Json → IikoWallet
unfolding text_at
wallet_of d = record { id = text_at "id" d; wallet_id = text_at "walletId" d; fields = d }

unfoldable pub card_of : Dict Json → IikoCard
unfolding text_at
card_of d = record {
  id = text_at "id" d;
  card_id = text_at "cardId" d;
  card_number = text_at "cardNumber" d;
  number = text_at "number" d;
  card_track = text_at "cardTrack" d;
  track = text_at "track" d;
}

-- An empty answer counts as none.
unfoldable pub customer_of : Dict Json → Option IikoCustomer
unfolding text_at lookup wallet_of card_of objects_of
customer_of [] = none
customer_of (m ∷ ms) =
    let d = m ∷ ms in
    some (record {
      id = text_at "id" d;
      customer_id = text_at "customerId" d;
      email = text_at "email" d;
      wallets = map wallet_of (list_in (lookup "walletBalances" d));
      cards = map card_of (list_in (lookup "cards" d));
      fields = d;
    })

abbrev found : Option (Dict Json) → Option IikoCustomer
found none = none
found (some d) = customer_of d

unfoldable pub client_api : {R : Type 0} → Net R → Login → IikoApi R
unfolding get_customer_by_phone create_or_update_customer add_card customer_of text_at
client_api net login = record {
  get_customer_by_phone = λ phone r.
      let (a, r') = get_customer_by_phone net login phone r in (a >>= λ d. ok (found d), r');
  create_or_update_customer = λ phone payload r.
      let (a, r') = create_or_update_customer net login phone payload r in
      (a >>= λ d. ok (customer_of d), r');
  add_card = λ customer_id number track r.
      let (a, r') = add_card net login customer_id number track r in
      (a >>= λ d. ok (or_text (text_at "id" d) (text_at "cardId" d)), r');
}

module _ {R : Type 0} (net : Net R) (login : Login) (readers : Readers) (draws : ℕ → Draws) where
  -- A run for an active user that may not create the customer reports that iiko does not have the
  -- customer, and leaves the session as it was, where another process has only got the lock of that phone
  -- for as long as the client waits. Nothing was asked of iiko: all that the run did to the network, the
  -- cache and the locks is the attempt to get that lock.
  pub sync_lock_busy :
      (attempts id : ℕ) (u : User) (w : World R)
      → user_by_id id w.session.work ≡ some u
      → refusal true false u ≡ none
      → (net.acquire_user_lock (user_lock_key (some u.phone) none) w.remote).0 ≡ false
      → let (r, w') =
          sync_user_from_iiko (client_api net login) readers draws true false attempts false id w in
        FailsWith "iiko_customer_not_found" r
        × (w' ≡ record w {
          remote = (net.acquire_user_lock (user_lock_key (some u.phone) none) w.remote).1;
        })
  unfolding client_api get_customer_by_phone with_user_lock is_service_error
  sync_lock_busy attempts id u w e h busy =
      sync_lookup_failed (client_api net login) readers draws attempts id u w
        (service_error "iiko user lock contention")
        (net.acquire_user_lock (user_lock_key (some u.phone) none) w.remote).1 e h (rw busy refl)
        refl
