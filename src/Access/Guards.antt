-- ===== src/Access/Guards.antt =====
-- Which tokens open the routes of clients, staff and managers: app/core/dependencies.py.
use sardoba_app_server.Prelude.{
  ℕ, ◌+◌, ◌<◌, ◌≡◌, refl, String, true, Option, none, some, [], inl, inr, ◌⊎◌, Bool-cases,
  Option-cases, ap, subst,
}
use sardoba_app_server.Prelude.Dict.{Dict, lookup, insert, update}
use sardoba_app_server.Json.{Json, str}
use sardoba_app_server.Text.{lower_is}
use sardoba_app_server.Failure.{Failure, Outcome, ok, raised, http_exception}
use sardoba_app_server.Settings.{Settings}
use sardoba_app_server.Models.{User, Staff, client}
use sardoba_app_server.SyncJobs.{seconds}
use sardoba_app_server.Otp.{minutes}
use sardoba_app_server.Cashback.{is_manager}
use sardoba_app_server.Tokens.{
  Security, IsSecurity, issue_tokens, create_access_token, access_payload, epoch_seconds,
  claimed_subject, is_true, is_text,
}
use sardoba_app_server.Service.{Session}
use sardoba_app_server.Access.{
  Credentials, actor_claim, active_client, staff_member, read_credentials, get_token_payload,
  subject_of, get_current_client, get_current_staff, get_current_manager,
}

Outcome-cases :
    {A : Type 0} (r : Outcome A) → ((a : A) × (r ≡ ok a)) ⊎ ((e : Failure) × (r ≡ raised e))
Outcome-cases (ok a) = inl (a, refl)
Outcome-cases (raised e) = inr (e, refl)

module _ (x : Security) where
  -- The request has a bearer token that is valid now, of that kind of actor and for that id.
  pub record IsRequestOf (actor : String) (given : Option (Credentials x)) (now id : ℕ)
      : Type 0 where
    pub header : Credentials x
    pub payload : Dict Json
    pub given_header : given ≡ some header
    pub is_bearer : lower_is header.scheme "bearer" ≡ true
    pub valid : x.decode header.credentials x.access_key now ≡ some payload
    pub kind : is_text actor (actor_claim payload) ≡ true
    pub subject : claimed_subject (lookup "sub" payload) ≡ ok id

  subject_of-IsRequestOf :
      (actor : String) (given : Option (Credentials x)) (now id : ℕ) (s : Session)
      → (subject_of x actor given now s).0 ≡ ok id
      → IsRequestOf actor given now id × ((subject_of x actor given now s).1 ≡ s)
  unfolding subject_of get_token_payload read_credentials
  subject_of-IsRequestOf actor none now id s e = cc
  subject_of-IsRequestOf actor (some c) now id s e =
      elim (Bool-cases (lower_is c.scheme "bearer")) [
        | inr other ↦ cc (rw other at e)
        | inl bearer ↦ elim (Option-cases (x.decode c.credentials x.access_key now)) [
          | inl invalid ↦ cc (rw (bearer, invalid) at e)
          | inr (p, valid) ↦ elim (Bool-cases (is_text actor (actor_claim p))) [
            | inr wrong ↦ cc (rw (bearer, valid, wrong) at e)
            | inl kind ↦ (
              record {
                header = c;
                payload = p;
                given_header = refl;
                is_bearer = bearer;
                valid = valid;
                kind = kind;
                subject = rw (bearer, valid, kind) at e;
              },
              rw (bearer, valid, kind) refl,
            )
          ]
        ]
      ]

  staff_found :
      (given : Option (Credentials x)) (now : ℕ) (s : Session) (w : Staff)
      → (get_current_staff x given now s).0 ≡ ok w
      → (id : ℕ) × IsRequestOf "STAFF" given now id × (staff_member id s.work ≡ some w)
  unfolding get_current_staff
  staff_found given now s w e = elim (Outcome-cases (subject_of x "STAFF" given now s).0) [
    | inr (f, failed) ↦ cc (rw failed at e)
    | inl (id, found) ↦
        let (request, same) = subject_of-IsRequestOf "STAFF" given now id s found in
        elim (Option-cases (staff_member id s.work)) [
          | inl gone ↦ cc (rw (found, same, gone) at e)
          | inr (v, row) ↦
              let this : v ≡ w = cc (rw (found, same, row) at e) in
              (id, request, rw row (ap some this))
        ]
  ]

  -- Who passes as a manager has a bearer token that is valid at that time and names a member of staff by
  -- id, and that member has a row, which is the result, with the role of a manager.
  pub get_current_manager_sound :
      (given : Option (Credentials x)) (now : ℕ) (s : Session) (w : Staff)
      → (get_current_manager x given now s).0 ≡ ok w
      → (id : ℕ) × IsRequestOf "STAFF" given now id
        × (staff_member id s.work ≡ some w)
        × (is_manager w.role ≡ true)
  unfolding get_current_manager
  get_current_manager_sound given now s w e =
      elim (Outcome-cases (get_current_staff x given now s).0) [
        | inr (f, failed) ↦ cc (rw failed at e)
        | inl (v, found) ↦ elim (Bool-cases (is_manager v.role)) [
          | inr other ↦ cc (rw (found, other) at e)
          | inl manages ↦
              let this : v ≡ w = cc (rw (found, manages) at e) in
              let (id, request, row) = staff_found given now s v found in
              (
                id,
                request,
                rw row (ap some this),
                subst (λ u. is_manager u.role ≡ true) this manages,
              )
        ]
      ]

abbrev issued_payload : Settings → ℕ → ℕ → Dict Json
issued_payload c id now =
    access_payload id "CLIENT" (now + minutes c.access_token_expire_minutes)
      (insert "actor_type" (str "CLIENT") [])

abbrev pub bearer_of : (x : Security) → x.Token → Option (Credentials x)
bearer_of x token = some (record { scheme = "Bearer"; credentials = token })

-- The access token of a client's login names that client until it runs out, as long as the client has a
-- row that is not marked as deleted, and never opens a route of staff or managers.
pub client_token_lem :
    (x : Security) (c : Settings) (id now later : ℕ) (u : User) (s : Session)
    → IsSecurity x
    → later < seconds (epoch_seconds (now + minutes c.access_token_expire_minutes))
    → active_client id s.work ≡ some u
    → let given = bearer_of x (issue_tokens x c now client id []).access in
      (get_current_client x given later s ≡ (ok u, s))
      × (get_current_staff x given later s
          ≡ (raised (http_exception 403 "Insufficient permissions"), s))
      × (get_current_manager x given later s
          ≡ (raised (http_exception 403 "Insufficient permissions"), s))
unfolding get_current_client get_current_staff get_current_manager subject_of get_token_payload
    read_credentials actor_claim issue_tokens create_access_token access_payload insert update
    lookup claimed_subject is_true lower_is
client_token_lem x c id now later u s h t e =
    let read = h.decode_encode (issued_payload c id now) x.access_key _ later refl t in
    (rw (read, e) refl, rw read refl, rw read refl)
