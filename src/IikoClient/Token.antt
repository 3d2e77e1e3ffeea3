-- ===== src/IikoClient/Token.antt =====
-- The token while another process refreshes it, and requests that fail on the way:
-- app/services/iiko_service.py.
use sardoba_app_server.Prelude.{
  ◌≡◌, refl, String, Bool, true, false, none, some, ◌⊎◌, inl, inr, if◌then◌else◌,
}
use sardoba_app_server.Prelude.Dict.{Dict}
use sardoba_app_server.Json.{Json}
use sardoba_app_server.IikoClient.Wire.{
  Net, Login, Request, Exchange, answered, broken, received, usable, retries, connect_error,
  connect_timeout, pool_timeout, write_timeout, read_timeout, other_timeout, other_error,
  is_idempotent, should_retry, send_attempts, send_request,
}
use sardoba_app_server.IikoClient.{refresh_token, get_token, send_authorized}

-- The error comes before the whole request was sent.
abbrev pub is_unsent : Exchange → Bool
is_unsent (answered response) = false
is_unsent (broken connect_error) = true
is_unsent (broken connect_timeout) = true
is_unsent (broken pool_timeout) = true
is_unsent (broken write_timeout) = true
is_unsent (broken read_timeout) = false
is_unsent (broken other_timeout) = false
is_unsent (broken other_error) = false

-- A request that creates or changes a customer, or adds a card.
abbrev pub IsChange : Request → Type 0
IsChange q =
    (q.method ≡ "POST")
    × ((q.path ≡ "/api/1/loyalty/iiko/customer/create_or_update")
        ⊎ (q.path ≡ "/api/1/loyalty/iiko/customer/card/add"))

retries-unsent : (x : Exchange) → retries false x ≡ is_unsent x
unfolding should_retry
retries-unsent (answered response) = refl
retries-unsent (broken connect_error) = refl
retries-unsent (broken connect_timeout) = refl
retries-unsent (broken pool_timeout) = refl
retries-unsent (broken write_timeout) = refl
retries-unsent (broken read_timeout) = refl
retries-unsent (broken other_timeout) = refl
retries-unsent (broken other_error) = refl

is_idempotent-change : (q : Request) → IsChange q → is_idempotent q.method q.path ≡ false
unfolding is_idempotent
is_idempotent-change q (post, inl path) = rw (post, path) refl
is_idempotent-change q (post, inr path) = rw (post, path) refl

module _ {R : Type 0} (net : Net R) where
  -- A request that creates or changes a customer, or adds a card, is made once, and its answer or its error
  -- is the result, unless the error came before the whole request was sent: then it is made once more, and
  -- the second answer or error is the result, whatever it is. iiko gets no such request twice.
  pub send_request_once :
      (q : Request) (r : R)
      → IsChange q
      → let (x, r₁) = net.request q r in
        let (y, r₂) = net.request q r₁ in
        send_request net q r ≡ (if is_unsent x then (received y, r₂) else (received x, r₁))
  unfolding send_request send_attempts
  send_request_once q r h = rw (is_idempotent-change q h, retries-unsent (net.request q r).0) refl

module _ {R : Type 0} (net : Net R) (login : Login) where
  -- While another process refreshes the token and none is cached, no error is raised: the request is sent
  -- with the text "Bearer None" for its token, the first time and after a refusal alike.
  pub send_authorized_busy :
      (force : Bool) (path : String) (body : Dict Json) (r : R)
      → usable (net.get_cached_token r) ≡ none
      → let (acquired, r₁) = net.try_token_lock r in
        acquired ≡ false
        → usable (net.get_cached_token r₁) ≡ none
        → send_authorized net login force path body r
          ≡ send_request net
              (record {
                method = "POST";
                path = path;
                body = body;
                authorization = some "Bearer None";
              })
              r₁
  unfolding send_authorized get_token refresh_token
  send_authorized_busy true path body r before busy after = rw busy refl
  send_authorized_busy false path body r before busy after = rw (before, after, busy) refl
