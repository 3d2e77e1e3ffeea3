-- ===== src/Tokens.antt =====
-- Passwords and tokens: app/core/security.py, and `issue_tokens`, `refresh_tokens` of
-- app/services/auth_service.py. The libraries jwt and passlib are a parameter, with the keys.
pub mod Refresh
pub mod Tests
use text.Mathlib.Text.{◌==◌ as str_eq}
use Prim.Native.Nat.{◌/◌}
use sardoba_app_server.Prelude.{
  is_some, ℕ, ◌+◌, ◌*◌, ◌<◌, ◌≡◌, String, Bool, true, false, not, ◌||◌, Option, none, some, List,
  [], ◌∷◌, ◌==◌, ltb, if◌then◌else◌, first,
}
use sardoba_app_server.Prelude.Int.{ℤ, pos, negsuc}
use sardoba_app_server.Prelude.Dict.{Dict, lookup, insert, update}
use sardoba_app_server.Json.{Json, null, bool, num, str, arr, obj, nil, cons, end, field}
use sardoba_app_server.Failure.{
  or_raise, Failure, Outcome, ok, raised, authentication_error, key_error, value_error,
}
use sardoba_app_server.Settings.{Settings}
use sardoba_app_server.Models.{AuthActorType, client, staff, User, Staff, Database}
use sardoba_app_server.SyncJobs.{seconds}
use sardoba_app_server.Otp.{minutes}
use sardoba_app_server.Service.{Service, ◌>>=◌, ◌>>◌, pure, raise, lift, query, unless}

-- `Token` stands for the encoded texts. `hash` takes its salt. `decode` gives no payload where the library raises.
pub record Security : Type 1 where
  pub Token : Type 0
  pub hash : String → String → String
  pub verify : String → String → Bool
  pub encode : Dict Json → String → Token
  pub decode : Token → String → ℕ → Option (Dict Json)
  pub access_key : String
  pub refresh_key : String

-- What the libraries document: a password verifies against its own hash, and a signed payload is read
-- back until the second in `exp`; where a token is read at all, what is read is what was signed.
pub record IsSecurity (x : Security) : Type 0 where
  pub verify_hash : (salt password : String) → x.verify password (x.hash salt password) ≡ true
  pub decode_encode :
      (p : Dict Json) (key : String) (exp now : ℕ)
      → lookup "exp" p ≡ some (num (pos exp))
      → now < seconds exp
      → x.decode (x.encode p key) key now ≡ some p
  pub decode_signed :
      (p q : Dict Json) (key key' : String) (now : ℕ)
      → x.decode (x.encode p key) key' now ≡ some q
      → p ≡ q

-- The subject stands in `sub` as its decimal text; here it stands as the number.
abbrev subject_claim : ℕ → Json
subject_claim id = num (pos id)

-- A moment in whole seconds, as the library writes it.
abbrev pub epoch_seconds : ℕ → ℕ
epoch_seconds t = t / 1_000_000

unfoldable pub access_payload : ℕ → String → ℕ → Dict Json → Dict Json
unfolding update
access_payload subject type expire claims =
    update
      (("sub", subject_claim subject)
        ∷ ("type", str type)
        ∷ ("exp", num (pos (epoch_seconds expire)))
        ∷ [])
      claims

unfoldable pub refresh_payload : ℕ → String → ℕ → Dict Json → Dict Json
unfolding update
refresh_payload subject type expire claims =
    update
      (("sub", subject_claim subject)
        ∷ ("type", str type)
        ∷ ("exp", num (pos (epoch_seconds expire)))
        ∷ ("scope", str "refresh")
        ∷ [])
      claims

unfoldable pub create_access_token :
    (x : Security) → Settings → ℕ → ℕ → String → Dict Json → x.Token
unfolding access_payload
create_access_token x c now subject type claims =
    x.encode (access_payload subject type (now + minutes c.access_token_expire_minutes) claims)
      x.access_key

abbrev pub days : ℕ → ℕ
days n = seconds (n * 86_400)

unfoldable pub create_refresh_token :
    (x : Security) → Settings → ℕ → ℕ → String → Dict Json → x.Token
unfolding refresh_payload
create_refresh_token x c now subject type claims =
    x.encode (refresh_payload subject type (now + days c.refresh_token_expire_days) claims)
      x.refresh_key

pub record Tokens (x : Security) : Type 0 where
  pub access : x.Token
  pub refresh : x.Token

abbrev pub actor_text : AuthActorType → String
actor_text client = "CLIENT"
actor_text staff = "STAFF"

unfoldable pub issue_tokens :
    (x : Security) → Settings → ℕ → AuthActorType → ℕ → Dict Json → Tokens x
unfolding insert create_access_token create_refresh_token
issue_tokens x c now actor subject extra =
    let claims = insert "actor_type" (str (actor_text actor)) extra in
    record {
      access = create_access_token x c now subject (actor_text actor) claims;
      refresh = create_refresh_token x c now subject (actor_text actor) claims;
    }

-- Whether a claim is there and is this text.
abbrev pub is_text : String → Option Json → Bool
is_text t (some (str s)) = str_eq s t
is_text t _ = false

unfoldable pub claimed_actor : Option Json → Outcome AuthActorType
claimed_actor claim =
    if is_text "CLIENT" claim
    then ok client
    else (if is_text "STAFF" claim
        then ok staff
        else raised (authentication_error "Invalid token actor type"))

-- `int(payload["sub"])`
unfoldable pub claimed_subject : Option Json → Outcome ℕ
claimed_subject none = raised key_error
claimed_subject (some (num (pos id))) = ok id
claimed_subject (some _) = raised (value_error "invalid literal for int()")

-- Python's truth value of a claim.
unfoldable pub is_true : Option Json → Bool
is_true none = false
is_true (some null) = false
is_true (some (bool b)) = b
is_true (some (num (pos n))) = not (n == 0)
is_true (some (num (negsuc n))) = true
is_true (some (str s)) = not (str_eq s "")
is_true (some (arr nil)) = false
is_true (some (arr (cons _ _))) = true
is_true (some (obj end)) = false
is_true (some (obj (field _ _ _))) = true

abbrev is_own_claim : String → Bool
is_own_claim k =
    str_eq k "sub"
    || (str_eq k "exp" || (str_eq k "scope" || (str_eq k "type" || str_eq k "actor_type")))

unfoldable pub extra_claims : Dict Json → Dict Json
extra_claims [] = []
extra_claims ((k, v) ∷ d) =
    let rest = extra_claims d in if is_own_claim k then rest else (k, v) ∷ rest

-- Whether the token's subject has a row.
unfoldable pub subject_exists : AuthActorType → ℕ → Database → Bool
subject_exists client id db = is_some (first (λ u. u.id == id) db.users.rows)
subject_exists staff id db = is_some (first (λ w. w.id == id) db.staff.rows)

abbrev missing_subject : AuthActorType → Failure
missing_subject client = authentication_error "User not found"
missing_subject staff = authentication_error "Staff not found"

unfoldable pub refresh_tokens : (x : Security) → Settings → ℕ → x.Token → Service (Tokens x)
unfolding lookup claimed_actor claimed_subject is_true extra_claims subject_exists issue_tokens
refresh_tokens x c now token = do
  payload ←
      lift
        (or_raise (x.decode token x.refresh_key now) (authentication_error "Invalid refresh token"))
  unless (is_text "refresh" (lookup "scope" payload)) (authentication_error "Invalid refresh token")
  actor ← lift (claimed_actor (lookup "actor_type" payload))
  subject ← lift (claimed_subject (lookup "sub" payload))
  exists ← query (subject_exists actor subject)
  unless (is_true (lookup "mock_user" payload) || exists) (missing_subject actor)
  pure (issue_tokens x c now actor subject (extra_claims payload))
