-- ===== src/IikoClient/Tests.antt =====
-- Calls of iiko over a plain network, whose state is the number of requests.
use sardoba_app_server.Prelude.{
  ℕ, ◌≡◌, refl, Bool, true, false, none, some, [], ◌∷◌, ◌+◌, ◌==◌, first, inr,
}
use sardoba_app_server.Json.{str}
use sardoba_app_server.Samples.{database_of, session_of, sample_user}
use sardoba_app_server.Customer.{user_by_id}
use sardoba_app_server.CustomerSync.{sync_user_from_iiko}
use sardoba_app_server.CustomerSync.Refusals.{FailsWith}
use sardoba_app_server.CustomerSync.Tests.Plain.{readers, draws}
use sardoba_app_server.Iiko.{World}
use sardoba_app_server.IikoClient.Wire.{
  Net, Login, Request, Exchange, answered, broken, read_timeout, json, received, send_request,
}
use sardoba_app_server.IikoClient.{
  send_authorized, get_customer_by_phone, create_or_update_customer, add_card,
}
use sardoba_app_server.IikoClient.Traffic.{IsNetwork, EndsWell, calls-EndsWell}
use sardoba_app_server.IikoClient.Token.{send_request_once, send_authorized_busy}
use sardoba_app_server.IikoClient.Api.{client_api, sync_lock_busy}

abbrev login : Login
login = record { api_login = "login"; organization_id = "org"; int = λ t. none }

-- Every answer is this one; the locks are free, or taken.
abbrev net_with : Exchange → Bool → Net ℕ
net_with x locks_free = record {
  is_success = λ status. status == 200;
  request = λ q n. (x, n + 1);
  get_cached_token = λ n. none;
  set_cached_token = λ t ttl n. n;
  try_token_lock = λ n. (locks_free, n);
  release_token_lock = λ n. n;
  acquire_user_lock = λ key n. (locks_free, n);
  release_user_lock = λ key n. n;
}

abbrev token_answer : Exchange
token_answer = answered (record { status = 200; body = json (("token", str "t") ∷ []) })

abbrev refusing : Net ℕ
refusing = net_with (answered (record { status = 401; body = json [] })) true

refusing-IsNetwork : IsNetwork refusing (λ n. n)
refusing-IsNetwork = record {
  answers = λ q n. ([], refl);
  request = λ q n. refl;
  set_cached_token = λ t ttl n. refl;
  try_token_lock = λ n. refl;
  release_token_lock = λ n. refl;
  acquire_user_lock = λ key n. refl;
  release_user_lock = λ key n. refl;
}

calls-EndsWell_example :
    EndsWell (λ n. n) 0 (get_customer_by_phone refusing login "+998901112233" 0)
    × EndsWell
        (λ n. n)
        0
        (create_or_update_customer refusing login "+998901112233" (("name", str "Ali") ∷ []) 0)
    × EndsWell (λ n. n) 0 (add_card refusing login "c-7" "8600000000000001" "42" 0)
calls-EndsWell_example =
    calls-EndsWell refusing login (λ n. n) refusing-IsNetwork "+998901112233"
      (("name", str "Ali") ∷ []) "c-7" "8600000000000001" "42" 0

abbrev card_request : Request
card_request = record {
  method = "POST";
  path = "/api/1/loyalty/iiko/customer/card/add";
  body = [];
  authorization = some "Bearer t";
}

send_request_once_example :
    send_request (net_with (broken read_timeout) true) card_request 0
    ≡ (received (broken read_timeout), 1)
send_request_once_example =
    send_request_once (net_with (broken read_timeout) true) card_request 0 (refl, inr refl)

send_authorized_busy_example :
    send_authorized
      (net_with token_answer false)
      login
      false
      "/api/1/loyalty/iiko/customer/info"
      []
      0
    ≡ send_request
        (net_with token_answer false)
        (record {
          method = "POST";
          path = "/api/1/loyalty/iiko/customer/info";
          body = [];
          authorization = some "Bearer None";
        })
        0
send_authorized_busy_example =
    send_authorized_busy (net_with token_answer false) login false
      "/api/1/loyalty/iiko/customer/info" [] 0 refl refl refl

abbrev start : World ℕ
start = record {
  remote = 0;
  session = session_of (database_of (sample_user ∷ []) [] []);
  cards_loaded = none;
}

sync_lock_busy_example :
    let (r, w') =
      sync_user_from_iiko
        (client_api (net_with token_answer false) login)
        readers
        draws
        true
        false
        1
        false
        7
        start in
    FailsWith "iiko_customer_not_found" r × (w' ≡ record start { remote = 0 })
unfolding user_by_id first
sync_lock_busy_example =
    sync_lock_busy (net_with token_answer false) login readers draws 1 7 sample_user start refl refl
      refl
