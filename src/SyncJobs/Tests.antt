-- ===== src/SyncJobs/Tests.antt =====
-- Runs of the job queue, and its theorems at concrete tables.
use sardoba_app_server.Prelude.{
  ℕ, ◌≡◌, refl, Bool, true, false, none, some, List, [], ◌∷◌, map, first, update_rows, order_by,
  select, All,
}
use sardoba_app_server.SyncJobs.{
  IikoSyncJob, JobTable, JobStatus, pending, success, empty, Request, enqueue, user_sync_request,
}
use sardoba_app_server.SyncJobs.Claims.{claim_due_jobs, holds_id}
use sardoba_app_server.SyncJobs.Outcomes.{mark_success, mark_retry}
use sardoba_app_server.SyncJobs.System.{JobCall, enqueues, claims, succeeds, retries, step, run}
use sardoba_app_server.SyncJobs.Valid.{IsValid, step-IsValid, run-IsValid, IsValid-empty}
use sardoba_app_server.SyncJobs.Lifecycle.{Tracks, step-Tracks}
use sardoba_app_server.SyncJobs.Exclusive.{claim_exclusive}

abbrev nobody : ℕ → Bool
nobody id = false

abbrev sync_seven : Request
sync_seven = user_sync_request 7 "+998901112233" true "auth_verify_otp"

abbrev history : List JobCall
history =
    enqueues sync_seven 100
    ∷ claims nobody "w1" 20 150
    ∷ retries 1 "w1" "boom" 160
    ∷ claims nobody "w2" 20 20_000_000
    ∷ succeeds 1 "w1" 20_000_001
    ∷ succeeds 1 "w2" 20_000_002
    ∷ []

abbrev statuses : List IikoSyncJob → List JobStatus
statuses = map (λ j. j.status)

-- A failure, a second attempt, a late report by the first worker that is ignored, and the success.
history_runs : map (λ (j : IikoSyncJob). j.attempt_count) (run empty history).rows ≡ 2 ∷ []
unfolding run step enqueue claim_due_jobs mark_success mark_retry first update_rows order_by select
history_runs = refl

waiting_table : JobTable
waiting_table = run empty (enqueues sync_seven 100 ∷ [])

finished_table : JobTable
finished_table = run empty history

waiting-IsValid : IsValid waiting_table
unfolding waiting_table
waiting-IsValid = run-IsValid empty (enqueues sync_seven 100 ∷ []) IsValid-empty

run-IsValid_example : IsValid (run empty history)
run-IsValid_example = run-IsValid empty history IsValid-empty

step-IsValid_example : IsValid (step waiting_table (claims nobody "w1" 20 150))
step-IsValid_example = step-IsValid waiting_table (claims nobody "w1" 20 150) waiting-IsValid

step-Tracks_example :
    Tracks waiting_table.rows (step waiting_table (claims nobody "w1" 20 150)).rows
step-Tracks_example = step-Tracks waiting_table (claims nobody "w1" 20 150)

abbrev fresh_job : IikoSyncJob
fresh_job = record {
  id = 1;
  user_id = some 7;
  phone = some "+998901112233";
  operation = "sync_user";
  status = pending;
  payload = [];
  attempt_count = 0;
  max_attempts = 3;
  next_retry_at = 100;
  last_attempt_at = none;
  completed_at = none;
  lock_owner = none;
  locked_at = none;
  last_error = none;
}

claim_exclusive_example :
    let (t', taken) = claim_due_jobs nobody "w1" 20 150 waiting_table in
    All (λ j. holds_id j.id taken ≡ false) (claim_due_jobs nobody "w2" 20 151 t').1
claim_exclusive_example =
    claim_exclusive waiting_table nobody nobody "w1" "w2" 20 20 150 151 waiting-IsValid

abbrev succeeded_job : IikoSyncJob
succeeded_job = record fresh_job { status = success; attempt_count = 1; completed_at = some 170 }

abbrev succeeded_table : JobTable
succeeded_table = record { rows = succeeded_job ∷ []; next_id = 2 }
