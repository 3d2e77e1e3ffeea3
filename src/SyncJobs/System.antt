-- ===== src/SyncJobs/System.antt =====
-- The queue as its callers drive it: every operation of app/services/iiko_sync_job_service.py as one
-- committed step, and a history as a list of steps by any number of workers.
use sardoba_app_server.Prelude.{ℕ, String, Bool, Option, List, [], ◌∷◌}
use sardoba_app_server.SyncJobs.{JobTable, Request, enqueue}
use sardoba_app_server.SyncJobs.Claims.{claim_due_jobs}
use sardoba_app_server.SyncJobs.Outcomes.{
  requeue_lock_busy, requeue_transient, mark_success, mark_retry, recover_stuck_jobs,
}

-- The last number of each is the time at which the operation runs.
pub data JobCall : Type 0 where
  enqueues : Request → ℕ → JobCall
  claims : (ℕ → Bool) → String → ℕ → ℕ → JobCall
  requeues_busy : ℕ → String → String → ℕ → JobCall
  requeues_transient : ℕ → String → String → Option ℕ → ℕ → JobCall
  succeeds : ℕ → String → ℕ → JobCall
  retries : ℕ → String → String → ℕ → JobCall
  recovers : (ℕ → Bool) → ℕ → ℕ → ℕ → JobCall

unfoldable pub step : JobTable → JobCall → JobTable
step t (enqueues r now) = (enqueue r now t).0
step t (claims row_locked worker_id limit now) = (claim_due_jobs row_locked worker_id limit now t).0
step t (requeues_busy id worker_id reason now) = (requeue_lock_busy id worker_id reason now t).0
step t (requeues_transient id worker_id reason delay now) =
    (requeue_transient id worker_id reason delay now t).0
step t (succeeds id worker_id now) = (mark_success id worker_id now t).0
step t (retries id worker_id error now) = (mark_retry id worker_id error now t).0
step t (recovers row_locked stale_after limit now) =
    (recover_stuck_jobs row_locked stale_after limit now t).0

unfoldable pub run : JobTable → List JobCall → JobTable
run t [] = t
run t (c ∷ cs) = run (step t c) cs
