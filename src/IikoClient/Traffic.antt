-- ===== src/IikoClient/Traffic.antt =====
-- How calls of app/services/iiko_service.py end: how many requests they make, and what they raise.
use sardoba_app_server.Prelude.{
  ℕ, zero, suc, ◌+◌, ◌≤◌, ◌≡◌, refl, String, Bool, true, false, Option, none, some, if◌then◌else◌,
  arith, Bool-cases, inl, inr, ◌||◌, ◌==◌,
}
use sardoba_app_server.Prelude.Dict.{Dict, lookup}
use sardoba_app_server.Json.{Json}
use sardoba_app_server.Failure.{Outcome, ok, raised, is_service_error}
use sardoba_app_server.IikoClient.Wire.{
  token_in, Net, Login, Request, Response, RequestError, connect_error, connect_timeout,
  pool_timeout, write_timeout, read_timeout, other_timeout, other_error, Exchange, answered, broken,
  Body, json, Fault, http_status_error, failed, Call, Answer, answer, fault, proceed, ◌>>=◌, give,
  pure, retries, received, request_failure, raise_for_status, json_of, content_of, is_idempotent,
  is_unauthorized, send_attempts, send_request, catch_status, lookup_status,
}
use sardoba_app_server.IikoClient.{
  store_token, fetch_token, refresh_token, get_token, cached_token, locked_answer, or_refreshed,
  send_authorized, post, with_user_lock, caught, get_customer_by_phone, create_or_update_customer,
  add_card,
}

abbrev pub IsJson : Exchange → Type 0
IsJson (answered response) = (d : Dict Json) × (response.body ≡ json d)
IsJson (broken e) = Unit

-- iiko answers in JSON if it answers, and `sent` counts the requests.
pub record IsNetwork {R : Type 0} (net : Net R) (sent : R → ℕ) : Type 0 where
  pub answers : (q : Request) (r : R) → IsJson (net.request q r).0
  pub request : (q : Request) (r : R) → sent (net.request q r).1 ≡ sent r + 1
  pub set_cached_token :
      (t : String) (ttl : ℕ) (r : R) → sent (net.set_cached_token t ttl r) ≡ sent r
  pub try_token_lock : (r : R) → sent (net.try_token_lock r).1 ≡ sent r
  pub release_token_lock : (r : R) → sent (net.release_token_lock r) ≡ sent r
  pub acquire_user_lock : (key : String) (r : R) → sent (net.acquire_user_lock key r).1 ≡ sent r
  pub release_user_lock : (key : String) (r : R) → sent (net.release_user_lock key r) ≡ sent r

-- An error of the service, or one that the caller turns into such.
abbrev IsExpected : Fault → Type 0
IsExpected (http_status_error status) = Unit
IsExpected (failed e) = is_service_error e ≡ true

abbrev EndsIn : {A : Type 0} → (A → Type 0) → Answer A → Type 0
EndsIn P (answer a) = P a
EndsIn P (fault f) = IsExpected f

abbrev Any : {A : Type 0} → A → Type 0
Any a = Unit

abbrev HasJson : Response → Type 0
HasJson response = (d : Dict Json) × (response.body ≡ json d)

module _ {R : Type 0} (sent : R → ℕ) where
  -- The code makes at most `n` requests, and its result satisfies the predicate.
  record Ends {A : Type 0} (n : ℕ) (P : A → Type 0) (m : Call R A) : Type 0 where
    at : (r : R) → (sent (m r).1 ≤ sent r + n) × EndsIn P (m r).0

  proceed-Ends :
      {A B : Type 0} (n : ℕ) (P : A → Type 0) (Q : B → Type 0) (a : Answer A) (f : A → Call R B)
      → EndsIn P a
      → ((x : A) → P x → Ends n Q (f x))
      → (r : R) → (sent (proceed a f r).1 ≤ sent r + n) × EndsIn Q (proceed a f r).0
  proceed-Ends n P Q (answer x) f p h r = (h x p).at r
  proceed-Ends n P Q (fault e) f p h r = (omega arith, p)

  Ends-bind :
      {A B : Type 0} (k n : ℕ) (P : A → Type 0) (Q : B → Type 0) (m : Call R A) (f : A → Call R B)
      → Ends k P m
      → ((x : A) → P x → Ends n Q (f x))
      → Ends (k + n) Q (m >>= f)
  Ends-bind k n P Q m f hm hf = record {
    at = λ r.
        let first_part = hm.at r in
        let rest = proceed-Ends n P Q (m r).0 f first_part.1 hf (m r).1 in
        (omega (arith, first_part.0, rest.0), rest.1);
  }

  Ends-give : {A : Type 0} (P : A → Type 0) (a : Answer A) → EndsIn P a → Ends 0 P (give a)
  Ends-give P a p = record { at = λ r. (omega arith, p) }

request_failure-service : (e : RequestError) → is_service_error (request_failure e) ≡ true
unfolding is_service_error request_failure
request_failure-service connect_error = refl
request_failure-service connect_timeout = refl
request_failure-service pool_timeout = refl
request_failure-service write_timeout = refl
request_failure-service read_timeout = refl
request_failure-service other_timeout = refl
request_failure-service other_error = refl

received-EndsIn : (x : Exchange) → IsJson x → EndsIn HasJson (received x)
received-EndsIn (answered response) h = h
received-EndsIn (broken e) h = request_failure-service e

module _ {R : Type 0} (net : Net R) (login : Login) (sent : R → ℕ)
    (network : IsNetwork net sent) where
  send_attempts-Ends :
      (left : ℕ) (q : Request) → Ends sent (left + 1) HasJson (send_attempts net left q)
  unfolding send_attempts
  send_attempts-Ends zero q = record {
    at = λ r. (
      omega (arith, network.request q r),
      received-EndsIn (net.request q r).0 (network.answers q r),
    );
  }
  send_attempts-Ends (suc left) q = record {
    at = λ r.
        let (x, r₁) = net.request q r in
        let rest = (send_attempts-Ends left q).at r₁ in
        elim (Bool-cases (retries (is_idempotent q.method q.path) x)) [
          | inl again ↦ rw again (omega (arith, network.request q r, rest.0), rest.1)
          | inr over ↦
              rw over (omega (arith, network.request q r), received-EndsIn x (network.answers q r))
        ];
  }

  send_request-Ends : (q : Request) → Ends sent 2 HasJson (send_request net q)
  unfolding send_request
  send_request-Ends q = send_attempts-Ends 1 q

  store_token-Ends :
      (token : Option String) (payload : Dict Json)
      → Ends sent 0 Any (store_token net login token payload)
  unfolding is_service_error
  store_token-Ends none payload = record { at = λ r. (omega arith, refl) }
  store_token-Ends (some t) payload = record {
    at = λ r. (omega (arith, network.set_cached_token t _ r), tt);
  }

  json_of-Ends : (b : Body) → (d : Dict Json) × (b ≡ json d) → Ends sent 0 Any (give (json_of b))
  unfolding json_of
  json_of-Ends b (d, e) = rw e (Ends-give sent Any (answer d) tt)

  content_of-Ends :
      (b : Body) → (d : Dict Json) × (b ≡ json d) → Ends sent 0 Any (give (content_of b))
  unfolding content_of json_of
  content_of-Ends b (d, e) = rw e (Ends-give sent Any (answer d) tt)

  status-Ends : (response : Response) → Ends sent 0 Any (give (raise_for_status net response))
  unfolding raise_for_status
  status-Ends response = elim (Bool-cases (net.is_success response.status)) [
    | inl success ↦ rw success (Ends-give sent Any (answer tt) tt)
    | inr error ↦
        rw error
          (Ends-give sent (Any {A = Unit {0}}) (fault (http_status_error response.status)) tt)
  ]

  fetch_token-Ends : Ends sent 2 Any (fetch_token net login)
  unfolding fetch_token
  fetch_token-Ends = Ends-bind sent 2 0 HasJson Any _ _ (send_request-Ends _) (λ response has.
      Ends-bind sent 0 0 Any Any _ _ (status-Ends response) (λ _ _.
        Ends-bind sent 0 0 Any Any _ _ (json_of-Ends response.body has)
          (λ payload _. store_token-Ends (token_in (lookup "token" payload)) payload)))

  locked_answer-Ends :
      (token : Option String) (acquired : Bool) (r : R)
      → let (a, r') = locked_answer net login token acquired (fetch_token net login r) r in
        (sent r' ≤ sent r + 2) × EndsIn Any a
  locked_answer-Ends (some t) true r = (omega (arith, network.release_token_lock r), tt)
  locked_answer-Ends (some t) false r = (omega arith, tt)
  locked_answer-Ends none true r =
      let fetched = fetch_token-Ends.at r in
      (omega (arith, fetched.0, network.release_token_lock (fetch_token net login r).1), fetched.1)
  locked_answer-Ends none false r = (omega arith, tt)

  refresh_token-Ends : (force : Bool) → Ends sent 2 Any (refresh_token net login force)
  unfolding refresh_token
  refresh_token-Ends force = record {
    at = λ r.
        let (acquired, r₁) = net.try_token_lock r in
        let (bound, ending) = locked_answer-Ends (cached_token net login force r₁) acquired r₁ in
        (omega (arith, network.try_token_lock r, bound), ending);
  }

  or_refreshed-Ends :
      (token : Option String) (force : Bool) (r : R)
      → let (a, r') = or_refreshed net login token (refresh_token net login force r) r in
        (sent r' ≤ sent r + 2) × EndsIn Any a
  or_refreshed-Ends (some t) force r = (omega arith, tt)
  or_refreshed-Ends none force r = (refresh_token-Ends force).at r

  get_token-Ends : (force : Bool) → Ends sent 2 Any (get_token net login force)
  unfolding get_token
  get_token-Ends force = record {
    at = λ r. or_refreshed-Ends (cached_token net login force r) force r;
  }

  send_authorized-Ends :
      (force : Bool) (path : String) (body : Dict Json)
      → Ends sent 4 HasJson (send_authorized net login force path body)
  unfolding send_authorized
  send_authorized-Ends force path body =
      Ends-bind sent 2 2 Any HasJson _ _ (get_token-Ends force) (λ token _. send_request-Ends _)

  again-Ends :
      (path : String) (body : Dict Json) (response : Response)
      → HasJson response
      → Ends sent 4 HasJson (
          if is_unauthorized response
          then send_authorized net login true path body
          else pure response)
  again-Ends path body response has = elim (Bool-cases (is_unauthorized response)) [
    | inl refused ↦ rw refused (send_authorized-Ends true path body)
    | inr fine ↦ rw fine (record { at = λ r. (omega arith, has) })
  ]

  post-Ends : (path : String) (body : Dict Json) → Ends sent 8 Any (post net login path body)
  unfolding post
  post-Ends path body =
      Ends-bind sent 4 4 HasJson Any _ _ (send_authorized-Ends false path body) (λ r₁ has₁.
        Ends-bind sent 4 0 HasJson Any _ _ (again-Ends path body r₁ has₁) (λ r₂ has₂.
          Ends-bind sent 0 0 Any Any _ _ (status-Ends r₂) (λ _ _. content_of-Ends r₂.body has₂)))

abbrev pub IsService : {A : Type 0} → Outcome A → Type 0
IsService (ok a) = Unit
IsService (raised e) = is_service_error e ≡ true

-- The call made at most eight requests, and raised nothing but an error of the service.
abbrev pub EndsWell : {R A : Type 0} → (R → ℕ) → R → Outcome A × R → Type 0
EndsWell sent r (a, r') = (sent r' ≤ sent r + 8) × IsService a

catch_status-IsService :
    {A B : Type 0} (handler : ℕ → Outcome B) (f : A → B) (a : Answer A)
    → ((status : ℕ) → IsService (handler status))
    → EndsIn Any a
    → IsService (catch_status handler f a)
catch_status-IsService handler f (answer a) h e = tt
catch_status-IsService handler f (fault (http_status_error status)) h e = h status
catch_status-IsService handler f (fault (failed x)) h e = e

lookup_status-IsService : (status : ℕ) → IsService (lookup_status status)
unfolding lookup_status is_service_error
lookup_status-IsService status = elim (Bool-cases (status == 404 || status == 400)) [
  | inl missing ↦ rw missing tt
  | inr other ↦ rw other refl
]

module _ {R : Type 0} (net : Net R) (login : Login) (sent : R → ℕ)
    (network : IsNetwork net sent) where
  with_user_lock-EndsWell :
      {A : Type 0} (key : String) (f : R → Outcome A × R)
      → ((r : R) → EndsWell sent r (f r))
      → (r : R) → EndsWell sent r (with_user_lock net login key f r)
  unfolding with_user_lock is_service_error
  with_user_lock-EndsWell key f h r =
      let (acquired, r₁) = net.acquire_user_lock key r in
      let body = h r₁ in
      let locked = network.acquire_user_lock key r in
      elim (Bool-cases acquired) [
        | inl got ↦
            rw got (omega (arith, locked, body.0, network.release_user_lock key (f r₁).1), body.1)
        | inr busy ↦ rw busy (omega (arith, locked), refl)
      ]

  caught-EndsWell :
      {B : Type 0} (handler : ℕ → Outcome B) (f : Dict Json → B) (path : String) (body : Dict Json)
      → ((status : ℕ) → IsService (handler status))
      → (r : R) → EndsWell sent r (caught net login handler f path body r)
  caught-EndsWell handler f path body h r =
      let ends = (post-Ends net login sent network path body).at r in
      (ends.0, catch_status-IsService handler f (post net login path body r).0 h ends.1)

  -- Where iiko answers in JSON or not at all, each call of the client makes at most eight requests, with
  -- the retries, the new tokens and the second try after a refusal, and raises nothing but an error of the
  -- service, which its callers handle.
  pub calls-EndsWell :
      (phone : String) (payload : Dict Json) (customer_id number track : String) (r : R)
      → EndsWell sent r (get_customer_by_phone net login phone r)
        × EndsWell sent r (create_or_update_customer net login phone payload r)
        × EndsWell sent r (add_card net login customer_id number track r)
  unfolding get_customer_by_phone create_or_update_customer add_card is_service_error
  calls-EndsWell phone payload customer_id number track r = (
    with_user_lock-EndsWell _ _ (caught-EndsWell lookup_status some _ _ lookup_status-IsService) r,
    with_user_lock-EndsWell _ _ (caught-EndsWell _ _ _ _ (λ status. refl)) r,
    with_user_lock-EndsWell _ _ (caught-EndsWell _ _ _ _ (λ status. refl)) r,
  )
