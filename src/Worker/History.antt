-- ===== src/Worker/History.antt =====
-- The worker of app/workers/iiko_sync_worker.py uses the queue by its operations only.
use sardoba_app_server.Prelude.{ℕ, ◌≡◌, String, List, [], ◌∷◌, ◌++◌, Option}
use sardoba_app_server.SyncJobs.{IikoSyncJob, JobTable}
use sardoba_app_server.SyncJobs.System.{
  JobCall, run, requeues_busy, requeues_transient, succeeds, retries,
}
use sardoba_app_server.Worker.{Operations, Run}

-- A table that operations of the queue lead to.
abbrev pub Reached : JobTable → JobTable → Type 0
Reached t t' = (cs : List JobCall) × (t' ≡ run t cs)

-- A worker's report on a job.
pub data IsReport (worker_id : String) (job_id : ℕ) : JobCall → Type 0 where
  success : (now : ℕ) → IsReport worker_id job_id (succeeds job_id worker_id now)
  retry : (text : String) (now : ℕ) → IsReport worker_id job_id (retries job_id worker_id text now)
  transient :
      (message : String) (delay : Option ℕ) (now : ℕ)
      → IsReport worker_id job_id (requeues_transient job_id worker_id message delay now)

-- The calls for one claimed job: none where the job is not the worker's any more; the job goes back where
-- its lock is taken; and otherwise what others do meanwhile and then one report.
pub data IsJobRun (worker_id : String) (job_id now : ℕ) (meanwhile : List JobCall)
    : List JobCall → Type 0 where
  not_claimed : IsJobRun worker_id job_id now meanwhile []
  lock_busy :
      IsJobRun worker_id job_id now meanwhile
        (requeues_busy job_id worker_id "user_lock_busy" now ∷ [])
  reported :
      (c : JobCall)
      → IsReport worker_id job_id c
      → IsJobRun worker_id job_id now meanwhile (meanwhile ++ (c ∷ []))

module _ {W : Type 0} (o : Operations W) where
  -- The calls for the claimed jobs, one job after the other.
  pub data IsRound (worker_id : String) (runs : ℕ → Run o)
      : List IikoSyncJob → List JobCall → Type 0 where
    no_job : IsRound worker_id runs [] []
    next_job :
        (j : IikoSyncJob) (js : List IikoSyncJob) (cs ds : List JobCall)
        → IsJobRun worker_id j.id (runs j.id).now (runs j.id).meanwhile cs
        → IsRound worker_id runs js ds
        → IsRound worker_id runs (j ∷ js) (cs ++ ds)
