-- ===== src/IikoClient.antt =====
-- The HTTP client of iiko: app/services/iiko_service.py. The network, the shared cache of the token and
-- the locks are a record of operations on a state of any type, in which other processes may act too.
-- Log lines and the pause before a retry are left out; the methods are written in capitals.
pub mod Wire
pub mod Traffic
pub mod Token
pub mod Api
mod Tests
use text.Mathlib.Text.{◌==◌ as str_eq}
use sardoba_app_server.Prelude.{
  ℕ, zero, suc, ◌-◌, max, String, Bool, true, false, not, ◌&&◌, ◌||◌, Option, none, some, List, [],
  ◌∷◌, ◌==◌, if◌then◌else◌, leb, is_some,
}
use sardoba_app_server.Prelude.Int.{ℤ, pos, negsuc}
use sardoba_app_server.Prelude.Dict.{Dict, lookup, insert, update}
use sardoba_app_server.Json.{Json, num, str, bool}
use sardoba_app_server.Text.{join}
use sardoba_app_server.Failure.{
  Failure, Outcome, ok, raised, service_error, service_error_from, value_error,
}
use sardoba_app_server.IikoClient.Wire.{
  ◌>>=◌, ◌>>◌, token_in, Answer, Call, Login, Net, Response, answer, bearer, cached_seconds,
  catch_status, content_of, extract_ttl, failed, fault, give, is_unauthorized, json_of,
  lookup_status, pure, raise_for_status, send_request, setdefault, usable, user_lock_key,
}

module _ {R : Type 0} (net : Net R) (login : Login) where
  abbrev store_token : Option String → Dict Json → Call R (Option String)
  store_token none payload r =
      (fault (failed (service_error "Iiko access token missing in response")), r)
  store_token (some token) payload r = (
    answer (some token),
    net.set_cached_token token (cached_seconds (extract_ttl login payload)) r,
  )

  unfoldable pub fetch_token : Call R (Option String)
  unfolding send_request raise_for_status json_of lookup extract_ttl cached_seconds
  fetch_token = do
    response ← send_request net (record {
      method = "POST";
      path = "/api/1/access_token";
      body = ("apiLogin", str login.api_login) ∷ [];
      authorization = none;
    })
    give (raise_for_status net response)
    payload ← give (json_of response.body)
    store_token (token_in (lookup "token" payload)) payload

  -- The cached token, unless a new one is wanted.
  abbrev pub cached_token : Bool → R → Option String
  cached_token true r = none
  cached_token false r = usable (net.get_cached_token r)

  -- Under the lock, if it was got, which is released at the end. Without it an exception is raised, and
  -- the `return` in the `finally` of `_token_lock` drops it, so that there is no token.
  abbrev pub locked_answer :
      Option String → Bool → Answer (Option String) × R → R → Answer (Option String) × R
  locked_answer (some t) acquired fetched r =
      (answer (some t), if acquired then net.release_token_lock r else r)
  locked_answer none true (a, r') r = (a, net.release_token_lock r')
  locked_answer none false fetched r = (answer none, r)

  unfoldable pub refresh_token : Bool → Call R (Option String)
  unfolding fetch_token
  refresh_token force r =
      let (acquired, r₁) = net.try_token_lock r in
      locked_answer (cached_token force r₁) acquired (fetch_token r₁) r₁

  abbrev pub or_refreshed :
      Option String → Answer (Option String) × R → R → Answer (Option String) × R
  or_refreshed (some t) refreshed r = (answer (some t), r)
  or_refreshed none refreshed r = refreshed

  unfoldable pub get_token : Bool → Call R (Option String)
  unfolding refresh_token
  get_token force r = or_refreshed (cached_token force r) (refresh_token force r) r

  unfoldable pub send_authorized : Bool → String → Dict Json → Call R Response
  unfolding get_token send_request
  send_authorized force path body = do
    token ← get_token force
    send_request net
        (record { method = "POST"; path = path; body = body; authorization = some (bearer token) })

  unfoldable pub post : String → Dict Json → Call R (Dict Json)
  unfolding send_authorized raise_for_status content_of
  post path body = do
    first_response ← send_authorized false path body
    response ←
        (if is_unauthorized first_response
          then send_authorized true path body
          else pure first_response)
    give (raise_for_status net response)
    give (content_of response.body)

  unfoldable pub with_user_lock : {A : Type 0} → String → (R → Outcome A × R) → R → Outcome A × R
  with_user_lock key f r =
      let (acquired, r₁) = net.acquire_user_lock key r in
      let (a, r₂) = f r₁ in
      if acquired
      then (a, net.release_user_lock key r₂)
      else (raised (service_error "iiko user lock contention"), r₁)

  abbrev caught :
      {B : Type 0} → (ℕ → Outcome B) → (Dict Json → B) → String → Dict Json → R → Outcome B × R
  caught handler f path body r = let (a, r') = post path body r in (catch_status handler f a, r')

  abbrev unable : {B : Type 0} → String → ℕ → Outcome B
  unable message status = raised (service_error_from message status)

  unfoldable pub get_customer_by_phone : String → R → Outcome (Option (Dict Json)) × R
  unfolding with_user_lock user_lock_key post lookup_status
  get_customer_by_phone phone = with_user_lock (user_lock_key (some phone) none) (
      caught lookup_status some "/api/1/loyalty/iiko/customer/info" (
        ("organizationId", str login.organization_id)
        ∷ ("phone", str phone)
        ∷ ("type", str "phone")
        ∷ []))

  unfoldable pub create_or_update_customer : String → Dict Json → R → Outcome (Dict Json) × R
  unfolding with_user_lock user_lock_key post update lookup insert
  create_or_update_customer phone payload_extra = with_user_lock (user_lock_key (some phone) none) (
      caught (unable "Unable to create or update Iiko customer") (λ d. d)
        "/api/1/loyalty/iiko/customer/create_or_update"
        (setdefault "comment" (str "CASHBACK MOBILE APP CLIENT") (
          update (("organizationId", str login.organization_id) ∷ ("phone", str phone) ∷ [])
            payload_extra)))

  unfoldable pub add_card : String → String → String → R → Outcome (Dict Json) × R
  unfolding with_user_lock user_lock_key post
  add_card customer_id card_number card_track =
      with_user_lock (user_lock_key none (some customer_id)) (
        caught (unable "Unable to add card to Iiko customer") (λ d. d)
          "/api/1/loyalty/iiko/customer/card/add"
          (("organizationId", str login.organization_id)
            ∷ ("customerId", str customer_id)
            ∷ ("cardTrack", str card_track)
            ∷ ("cardNumber", str card_number)
            ∷ []))
