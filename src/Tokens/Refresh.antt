-- ===== src/Tokens/Refresh.antt =====
-- Tokens that `issue_tokens` of app/services/auth_service.py makes, and `refresh_tokens`.
use sardoba_app_server.Prelude.{
  inl, inr, Option-cases, ℕ, ◌+◌, ◌<◌, ◌≡◌, refl, sym, String, true, Option, none, some, [], ◌∷◌,
}
use sardoba_app_server.Prelude.Dict.{Dict, lookup, insert, update}
use sardoba_app_server.Json.{Json, str}
use sardoba_app_server.Failure.{or_raise, ok, raised, authentication_error}
use sardoba_app_server.Settings.{Settings}
use sardoba_app_server.Models.{AuthActorType, client, staff}
use sardoba_app_server.SyncJobs.{seconds}
use sardoba_app_server.Otp.{minutes}
use sardoba_app_server.Service.{Session}
use sardoba_app_server.Tokens.{
  Security, IsSecurity, issue_tokens, refresh_tokens, create_refresh_token, refresh_payload,
  epoch_seconds, days, subject_exists, extra_claims, claimed_actor, claimed_subject, is_true,
  access_payload, create_access_token, actor_text,
}

-- The extra claims of a login: none for a client, the role for a member of staff.
abbrev pub login_claims : Option String → Dict Json
login_claims none = []
login_claims (some role) = ("role", str role) ∷ []

abbrev issued : Settings → String → ℕ → Dict Json → ℕ → Dict Json
issued c actor id extra now =
    refresh_payload id actor (now + days c.refresh_token_expire_days)
      (insert "actor_type" (str actor) extra)

-- Until it runs out, the refresh token of a login gives new tokens for the same actor, with the claims of
-- that login and the new time, as long as the actor has a row: the role is the one at the login, also where
-- the row has another role by then.
pub refresh_issued :
    (x : Security) (c : Settings) (actor : AuthActorType) (id : ℕ) (role : Option String)
    (now later : ℕ) (s : Session)
    → IsSecurity x
    → later < seconds (epoch_seconds (now + days c.refresh_token_expire_days))
    → subject_exists actor id s.work ≡ true
    → refresh_tokens x c later (issue_tokens x c now actor id (login_claims role)).refresh s
      ≡ (ok (issue_tokens x c later actor id (login_claims role)), s)
unfolding refresh_tokens issue_tokens create_refresh_token refresh_payload insert update lookup
    claimed_actor claimed_subject is_true extra_claims
refresh_issued x c client id none now later s h t e =
    rw (h.decode_encode (issued c "CLIENT" id [] now) x.refresh_key _ later refl t, e) refl
refresh_issued x c client id (some role) now later s h t e =
    rw
      (
        h.decode_encode (issued c "CLIENT" id (("role", str role) ∷ []) now) x.refresh_key _ later
            refl t,
        e,
      )
      refl
refresh_issued x c staff id none now later s h t e =
    rw (h.decode_encode (issued c "STAFF" id [] now) x.refresh_key _ later refl t, e) refl
refresh_issued x c staff id (some role) now later s h t e =
    rw
      (
        h.decode_encode (issued c "STAFF" id (("role", str role) ∷ []) now) x.refresh_key _ later
            refl t,
        e,
      )
      refl

abbrev access_issued : Settings → String → ℕ → Dict Json → ℕ → Dict Json
access_issued c actor id extra now =
    access_payload id actor (now + minutes c.access_token_expire_minutes)
      (insert "actor_type" (str actor) extra)

unscoped :
    (c : Settings) (actor : String) (id : ℕ) (role : Option String) (now : ℕ)
    → lookup "scope" (access_issued c actor id (login_claims role) now) ≡ none
unfolding access_payload insert update lookup
unscoped c actor id none now = refl
unscoped c actor id (some role) now = refl

refused_payload :
    (x : Security) (c : Settings) (later : ℕ) (token : x.Token) (p : Dict Json) (s : Session)
    → lookup "scope" p ≡ none
    → ((q : Dict Json) → x.decode token x.refresh_key later ≡ some q → p ≡ q)
    → refresh_tokens x c later token s ≡ (raised (authentication_error "Invalid refresh token"), s)
unfolding refresh_tokens
refused_payload x c later token p s scope only =
    elim (Option-cases (x.decode token x.refresh_key later)) [
      | inl e ↦ rw (e, or_raise) refl
      | inr (q, e) ↦ rw (e, or_raise, sym (only q e), scope) refl
    ]

-- The access token of a login is refused as a refresh token, at any time, whatever the two keys are.
pub access_token_refused :
    (x : Security) (c : Settings) (actor : AuthActorType) (id : ℕ) (role : Option String)
    (now later : ℕ) (s : Session)
    → IsSecurity x
    → refresh_tokens x c later (issue_tokens x c now actor id (login_claims role)).access s
      ≡ (raised (authentication_error "Invalid refresh token"), s)
unfolding issue_tokens create_access_token
access_token_refused x c actor id role now later s h =
    refused_payload x c later _ (access_issued c (actor_text actor) id (login_claims role) now) s
      (unscoped c (actor_text actor) id role now)
      (λ q. h.decode_signed _ q x.access_key x.refresh_key later)
