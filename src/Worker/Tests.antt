-- ===== src/Worker/Tests.antt =====
-- One round of a worker on a queue of one job, with operations that always succeed.
use sardoba_app_server.Prelude.{ℕ, ◌≡◌, Bool, true, false, none, some, [], ◌∷◌}
use sardoba_app_server.Failure.{ok}
use sardoba_app_server.Samples.{sample_user}
use sardoba_app_server.SyncJobs.{JobTable, empty, user_sync_request}
use sardoba_app_server.SyncJobs.Claims.{get_claimed_job}
use sardoba_app_server.SyncJobs.System.{enqueues, claims, run}
use sardoba_app_server.Worker.{Operations, Run, process_job}
use sardoba_app_server.Worker.Release.{process_job-releases}

abbrev calm : Operations ℕ
calm = record {
  find_user = λ id w. some sample_user;
  sync_user_from_iiko = λ u create w. (ok (record { ok? = true; error = none }), w);
  flush_pending_updates = λ u w. (ok tt, w);
  create_or_update_customer = λ phone payload w. (ok tt, w);
  text_of = λ e. "error";
}

abbrev quiet : Run calm
quiet = record { now = 200; later = 300; lock_free = λ k. true; meanwhile = [] }

abbrev nobody : ℕ → Bool
nobody id = false

abbrev waiting : JobTable
waiting = run empty (enqueues (user_sync_request 7 "+998901112233" true "auth_verify_otp") 100 ∷ [])

abbrev claimed_table : JobTable
claimed_table = run waiting (claims nobody "w1" 20 200 ∷ [])

process_job-releases_example :
    get_claimed_job 1 "w1" (process_job calm "w1" quiet 1 (claimed_table, 0)).0 ≡ none
process_job-releases_example = process_job-releases calm "w1" quiet 1 claimed_table 0
