-- ===== src/Tokens/Tests.antt =====
-- A plain implementation of the libraries, and the theorems on tokens at concrete sessions.
pub mod Plain
use sardoba_app_server.Prelude.{ℕ, ◌≡◌, refl, String, Option, none, some, [], ◌∷◌, arith, first}
use sardoba_app_server.Samples.{sample_settings, database_of, session_of, sample_user}
use sardoba_app_server.Failure.{ok, raised, authentication_error}
use sardoba_app_server.Models.{client, staff}
use sardoba_app_server.Service.{Session}
use sardoba_app_server.Tokens.{issue_tokens, refresh_tokens, subject_exists}
use sardoba_app_server.Tokens.Refresh.{login_claims, refresh_issued, access_token_refused}
use Plain.{plain_security, plain-IsSecurity}

abbrev with_user : Session
with_user = session_of (database_of (sample_user ∷ []) [] [])

refresh_issued_example :
    refresh_tokens plain_security sample_settings 60_000_000
      (issue_tokens plain_security sample_settings 5_000_000 client 7 []).refresh
      with_user
    ≡ (ok (issue_tokens plain_security sample_settings 60_000_000 client 7 []), with_user)
unfolding subject_exists first
refresh_issued_example =
    refresh_issued plain_security sample_settings client 7 none 5_000_000 60_000_000 with_user
      plain-IsSecurity (omega arith) refl
