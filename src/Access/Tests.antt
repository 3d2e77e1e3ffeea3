-- ===== src/Access/Tests.antt =====
-- Tokens of logins at the doors of the routes.
use sardoba_app_server.Prelude.{ℕ, ◌≡◌, refl, true, Option, some, [], ◌∷◌, first, arith}
use sardoba_app_server.Prelude.Dict.{lookup, insert, update}
use sardoba_app_server.Json.{str}
use sardoba_app_server.Text.{lower_is}
use sardoba_app_server.Failure.{ok, raised, http_exception}
use sardoba_app_server.Samples.{
  sample_settings, database_of, session_of, sample_user, sample_manager, with_staff,
}
use sardoba_app_server.Models.{client, staff}
use sardoba_app_server.Cashback.{is_manager}
use sardoba_app_server.Service.{Session}
use sardoba_app_server.Tokens.{
  issue_tokens, create_access_token, access_payload, claimed_subject, is_true,
}
use sardoba_app_server.Tokens.Tests.Plain.{plain_security, plain-IsSecurity, read_token}
use sardoba_app_server.Access.{
  Credentials, actor_claim, active_client, staff_member, read_credentials, get_token_payload,
  subject_of, get_current_client, get_current_staff, get_current_manager,
}
use sardoba_app_server.Access.Guards.{
  bearer_of, IsRequestOf, get_current_manager_sound, client_token_lem,
}

abbrev shop : Session
shop = session_of (with_staff (sample_manager ∷ []) [] (database_of (sample_user ∷ []) [] []))

abbrev client_header : Option (Credentials plain_security)
client_header =
    bearer_of plain_security
      (issue_tokens plain_security sample_settings 5_000_000 client 7 []).access

client_token_lem_example :
    (get_current_client plain_security client_header 60_000_000 shop ≡ (ok sample_user, shop))
    × (get_current_staff plain_security client_header 60_000_000 shop
        ≡ (raised (http_exception 403 "Insufficient permissions"), shop))
    × (get_current_manager plain_security client_header 60_000_000 shop
        ≡ (raised (http_exception 403 "Insufficient permissions"), shop))
unfolding active_client first
client_token_lem_example =
    client_token_lem plain_security sample_settings 7 5_000_000 60_000_000 sample_user shop
      plain-IsSecurity (omega arith) refl

abbrev manager_header : Option (Credentials plain_security)
manager_header =
    bearer_of plain_security
      (issue_tokens plain_security sample_settings 5_000_000 staff 1
        (("role", str "MANAGER") ∷ [])).access

get_current_manager_sound_example :
    (id : ℕ) × IsRequestOf plain_security "STAFF" manager_header 60_000_000 id
    × (staff_member id shop.work ≡ some sample_manager)
    × (is_manager sample_manager.role ≡ true)
unfolding get_current_manager get_current_staff subject_of get_token_payload read_credentials
    actor_claim issue_tokens create_access_token access_payload insert update lookup claimed_subject
    is_true lower_is staff_member first read_token
get_current_manager_sound_example =
    get_current_manager_sound plain_security manager_header 60_000_000 shop sample_manager refl
