-- ===== src/Access.antt =====
-- Who a request comes from: app/core/dependencies.py. The details of the errors stand as they are before
-- `localize_message`.
pub mod Guards
mod Tests
use sardoba_app_server.Prelude.{
  ℕ, String, Bool, true, false, not, ◌&&◌, Option, none, some, ◌==◌, first, if◌then◌else◌,
}
use sardoba_app_server.Prelude.Dict.{Dict, lookup}
use sardoba_app_server.Json.{Json}
use sardoba_app_server.Text.{lower_is}
use sardoba_app_server.Failure.{Outcome, ok, raised, or_raise, http_exception}
use sardoba_app_server.Models.{User, Staff, Database}
use sardoba_app_server.Cashback.{is_manager}
use sardoba_app_server.Tokens.{Security, claimed_subject, is_true, is_text}
use sardoba_app_server.Service.{Service, ◌>>=◌, ◌>>◌, pure, lift, query, unless}

-- The parts of an authorization header.
pub record Credentials (x : Security) : Type 0 where
  pub scheme : String
  pub credentials : x.Token

-- a or b
abbrev pub or_claim : Option Json → Option Json → Option Json
or_claim a b = if is_true a then a else b

unfoldable pub actor_claim : Dict Json → Option Json
unfolding lookup is_true
actor_claim payload = or_claim (lookup "actor_type" payload) (lookup "type" payload)

unfoldable pub active_client : ℕ → Database → Option User
active_client id db = first (λ u. u.id == id && not u.is_deleted) db.users.rows

unfoldable pub staff_member : ℕ → Database → Option Staff
staff_member id db = first (λ w. w.id == id) db.staff.rows

module _ (x : Security) where
  unfoldable pub read_credentials : Option (Credentials x) → Outcome x.Token
  unfolding lower_is
  read_credentials none = raised (http_exception 401 "Not authenticated")
  read_credentials (some c) =
      if lower_is c.scheme "bearer"
      then ok c.credentials
      else raised (http_exception 401 "Invalid authentication scheme")

  unfoldable pub get_token_payload : Option (Credentials x) → ℕ → Service (Dict Json)
  unfolding read_credentials
  get_token_payload given now = do
    token ← lift (read_credentials given)
    lift (or_raise (x.decode token x.access_key now) (http_exception 401 "Invalid token"))

  -- The subject of a token of that kind of actor; a subject that is no number raises what `int` does.
  unfoldable pub subject_of : String → Option (Credentials x) → ℕ → Service ℕ
  unfolding get_token_payload actor_claim claimed_subject lookup
  subject_of actor given now = do
    payload ← get_token_payload given now
    unless (is_text actor (actor_claim payload)) (http_exception 403 "Insufficient permissions")
    lift (claimed_subject (lookup "sub" payload))

  unfoldable pub get_current_client : Option (Credentials x) → ℕ → Service User
  unfolding subject_of active_client
  get_current_client given now = do
    id ← subject_of "CLIENT" given now
    found ← query (active_client id)
    lift (or_raise found (http_exception 401 "User not found"))

  unfoldable pub get_current_staff : Option (Credentials x) → ℕ → Service Staff
  unfolding subject_of staff_member
  get_current_staff given now = do
    id ← subject_of "STAFF" given now
    found ← query (staff_member id)
    lift (or_raise found (http_exception 401 "Staff not found"))

  unfoldable pub get_current_manager : Option (Credentials x) → ℕ → Service Staff
  unfolding get_current_staff
  get_current_manager given now = do
    w ← get_current_staff given now
    unless (is_manager w.role) (http_exception 403 "Managers only")
    pure w
