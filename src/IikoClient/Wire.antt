-- ===== src/IikoClient/Wire.antt =====
-- One request to iiko, with its retry: the first part of app/services/iiko_service.py, and what of the
-- network, the cache and the locks it uses.
use text.Mathlib.Text.{◌==◌ as str_eq}
use sardoba_app_server.Prelude.{
  ℕ, zero, suc, ◌-◌, max, String, Bool, true, false, ◌||◌, Option, none, some, List, [], ◌∷◌, ◌==◌,
  if◌then◌else◌, is_some,
}
use sardoba_app_server.Prelude.Int.{ℤ, pos, negsuc}
use sardoba_app_server.Prelude.Dict.{Dict, lookup, insert}
use sardoba_app_server.Json.{Json, num, str, bool}
use sardoba_app_server.Text.{join}
use sardoba_app_server.Failure.{
  Failure, Outcome, ok, raised, service_error, service_error_from, value_error,
}

-- httpx.RequestError with its subclasses, where the code tells them apart.
pub data RequestError : Type 0 where
  connect_error connect_timeout pool_timeout write_timeout read_timeout : RequestError
  other_timeout other_error : RequestError

pub data Body : Type 0 where
  no_content not_json : Body
  json : Dict Json → Body

pub record Response : Type 0 where
  pub status : ℕ
  pub body : Body

pub data Exchange : Type 0 where
  answered : Response → Exchange
  broken : RequestError → Exchange

-- `authorization` is the header of that name; the other headers are the same in every request.
pub record Request : Type 0 where
  pub method : String
  pub path : String
  pub body : Dict Json
  pub authorization : Option String

-- `is_success` is httpx's, which `raise_for_status` asks.
pub record Net (R : Type 0) : Type 0 where
  pub is_success : ℕ → Bool
  pub request : Request → R → Exchange × R
  pub get_cached_token : R → Option String
  pub set_cached_token : String → ℕ → R → R
  pub try_token_lock : R → Bool × R
  pub release_token_lock : R → R
  pub acquire_user_lock : String → R → Bool × R
  pub release_user_lock : String → R → R

-- What the client is configured with; `int` reads a text of digits.
pub record Login : Type 0 where
  pub api_login : String
  pub organization_id : String
  pub int : String → Option ℕ

-- httpx.HTTPStatusError, or an exception of another kind.
pub data Fault : Type 0 where
  http_status_error : ℕ → Fault
  failed : Failure → Fault

pub data Answer (A : Type 0) : Type 0 where
  answer : A → Answer A
  fault : Fault → Answer A

abbrev pub Call : Type 0 → Type 0 → Type 0
Call R A = R → Answer A × R

abbrev pub proceed : {R A B : Type 0} → Answer A → (A → Call R B) → Call R B
proceed (answer a) f r = f a r
proceed (fault e) f r = (fault e, r)

infixl 10 ◌>>=◌ ◌>>◌
abbrev pub ◌>>=◌ : {R A B : Type 0} → Call R A → (A → Call R B) → Call R B
◌>>=◌ m f r = let (a, r') = m r in proceed a f r'

abbrev pub ◌>>◌ : {R A B : Type 0} → Call R A → Call R B → Call R B
m >> n = m >>= λ _. n

abbrev pub pure : {R A : Type 0} → A → Call R A
pure a r = (answer a, r)

abbrev pub give : {R A : Type 0} → Answer A → Call R A
give a r = (a, r)

unfoldable pub is_idempotent : String → String → Bool
is_idempotent method path =
    (str_eq method "GET" || (str_eq method "HEAD" || str_eq method "OPTIONS"))
    || (str_eq path "/api/1/access_token" || str_eq path "/api/1/loyalty/iiko/customer/info")

unfoldable pub should_retry : RequestError → Bool → Bool
should_retry connect_error idempotent = true
should_retry connect_timeout idempotent = true
should_retry pool_timeout idempotent = true
should_retry write_timeout idempotent = true
should_retry read_timeout idempotent = idempotent
should_retry other_timeout idempotent = idempotent
should_retry other_error idempotent = false

abbrev timed_out : String → Failure
timed_out name = service_error (join "Iiko request timed out (" (join name ")"))

unfoldable pub request_failure : RequestError → Failure
request_failure connect_timeout = timed_out "ConnectTimeout"
request_failure pool_timeout = timed_out "PoolTimeout"
request_failure write_timeout = timed_out "WriteTimeout"
request_failure read_timeout = timed_out "ReadTimeout"
request_failure other_timeout = timed_out "TimeoutException"
request_failure connect_error = service_error "Iiko request failed"
request_failure other_error = service_error "Iiko request failed"

abbrev pub received : Exchange → Answer Response
received (answered response) = answer response
received (broken e) = fault (failed (request_failure e))

abbrev pub retries : Bool → Exchange → Bool
retries idempotent (answered response) = false
retries idempotent (broken e) = should_retry e idempotent

-- `response.json()`, and the whole of what a request returns.
unfoldable pub json_of : Body → Answer (Dict Json)
json_of (json d) = answer d
json_of _ = fault (failed (value_error "Expecting value"))

unfoldable pub content_of : Body → Answer (Dict Json)
unfolding json_of
content_of no_content = answer []
content_of b = json_of b

abbrev ttl_value : Login → Option Json → Option ℤ
ttl_value login (some (num n)) = some n
ttl_value login (some (bool b)) = some (pos (if b then 1 else 0))
ttl_value login (some (str t)) = elim (login.int t) [ none ↦ none | some n ↦ some (pos n) ]
ttl_value login _ = none

unfoldable pub first_ttl : Login → List String → Dict Json → ℤ
unfolding lookup
first_ttl login [] payload = pos 3_600
first_ttl login (key ∷ keys) payload = elim (ttl_value login (lookup key payload)) [
  | none ↦ first_ttl login keys payload
  | some ttl ↦ ttl
]

unfoldable pub extract_ttl : Login → Dict Json → ℤ
unfolding first_ttl
extract_ttl login payload = first_ttl login ("expiresIn" ∷ "expires" ∷ "expires_in" ∷ []) payload

-- max(ttl - TOKEN_TTL_BUFFER_SECONDS, 30)
unfoldable pub cached_seconds : ℤ → ℕ
cached_seconds (pos n) = max (n - 30) 30
cached_seconds (negsuc n) = 30

-- A token is a text, as iiko documents; an empty one counts as missing.
abbrev pub usable : Option String → Option String
usable none = none
usable (some t) = if str_eq t "" then none else some t

abbrev pub token_in : Option Json → Option String
token_in (some (str t)) = usable (some t)
token_in _ = none

-- f"Bearer {token}"
abbrev pub bearer : Option String → String
bearer none = "Bearer None"
bearer (some t) = join "Bearer " t

abbrev pub is_unauthorized : Response → Bool
is_unauthorized response = response.status == 401 || response.status == 403

abbrev pub setdefault : String → Json → Dict Json → Dict Json
setdefault key v d = if is_some (lookup key d) then d else insert key v d

unfoldable pub user_lock_key : Option String → Option String → String
user_lock_key phone customer_id = elim (usable phone) [
  | some p ↦ join "iiko:lock:customer:" p
  | none ↦ elim (usable customer_id) [
    | some c ↦ join "iiko:lock:customer_id:" c
    | none ↦ "iiko:lock:customer:unknown"
  ]
]

-- `except HTTPStatusError`.
abbrev pub catch_status : {A B : Type 0} → (ℕ → Outcome B) → (A → B) → Answer A → Outcome B
catch_status handler f (answer a) = ok (f a)
catch_status handler f (fault (http_status_error status)) = handler status
catch_status handler f (fault (failed e)) = raised e

unfoldable pub lookup_status : ℕ → Outcome (Option (Dict Json))
lookup_status status =
    if status == 404 || status == 400
    then ok none
    else raised (service_error_from "Failed to fetch Iiko customer info" status)

module _ {R : Type 0} (net : Net R) where
  unfoldable pub raise_for_status : Response → Answer (Unit {0})
  raise_for_status response =
      if net.is_success response.status
      then answer tt
      else fault (http_status_error response.status)

  -- One request and as many retries as are left.
  unfoldable pub send_attempts : ℕ → Request → Call R Response
  unfolding should_retry is_idempotent request_failure
  send_attempts zero request r = let (x, r₁) = net.request request r in (received x, r₁)
  send_attempts (suc left) request r =
      let (x, r₁) = net.request request r in
      let again = send_attempts left request r₁ in
      if retries (is_idempotent request.method request.path) x then again else (received x, r₁)

  unfoldable pub send_request : Request → Call R Response
  unfolding send_attempts
  send_request request = send_attempts 1 request
