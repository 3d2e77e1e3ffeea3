-- ===== src/SyncJobs/Claims.antt =====
-- Claiming due jobs: `claim_due_jobs` and `get_claimed_job` of
-- app/services/iiko_sync_job_service.py. `row_locked` says which rows another transaction holds at
-- that moment (`FOR UPDATE SKIP LOCKED` passes them over).
use sardoba_app_server.Prelude.{
  ℕ, max, String, Bool, false, not, ◌&&◌, ◌||◌, Option, some, List, [], ◌∷◌, map, ltb, leb, ◌==◌,
  take, first, select, update_rows, order_by,
}
use sardoba_app_server.SyncJobs.{IikoSyncJob, JobTable, running, is_waiting, is_running, holds_text}

unfoldable pub is_due : ℕ → IikoSyncJob → Bool
is_due now j =
    is_waiting j.status && (leb j.next_retry_at now && ltb j.attempt_count j.max_attempts)

-- ORDER BY next_retry_at, id
unfoldable pub due_first : IikoSyncJob → IikoSyncJob → Bool
due_first a b =
    ltb a.next_retry_at b.next_retry_at || (a.next_retry_at == b.next_retry_at && ltb a.id b.id)

unfoldable pub claimable : (ℕ → Bool) → ℕ → IikoSyncJob → Bool
unfolding is_due
claimable row_locked now j = is_due now j && not (row_locked j.id)

unfoldable pub due_batch : (ℕ → Bool) → ℕ → ℕ → List IikoSyncJob → List IikoSyncJob
unfolding claimable due_first
due_batch row_locked limit now rows =
    take (max 1 limit) (order_by due_first (select (claimable row_locked now) rows))

-- Whether the list holds a row with this id.
unfoldable pub holds_id : ℕ → List IikoSyncJob → Bool
holds_id n [] = false
holds_id n (j ∷ js) = j.id == n || holds_id n js

unfoldable pub claim_job : String → ℕ → IikoSyncJob → IikoSyncJob
claim_job worker_id now j = record j {
  status = running;
  lock_owner = some worker_id;
  locked_at = some now;
  last_attempt_at = some now;
}

-- The rows of the batch are the selected rows themselves: they stand in the batch and they are due.
unfoldable pub in_batch : (ℕ → Bool) → ℕ → List IikoSyncJob → IikoSyncJob → Bool
unfolding claimable holds_id
in_batch row_locked now batch j = holds_id j.id batch && claimable row_locked now j

unfoldable pub claim_due_jobs : (ℕ → Bool) → String → ℕ → ℕ → JobTable → JobTable × List IikoSyncJob
unfolding due_batch claim_job in_batch
claim_due_jobs row_locked worker_id limit now t =
    let batch = due_batch row_locked limit now t.rows in
    (
      record t {
        rows = update_rows (in_batch row_locked now batch) (claim_job worker_id now) t.rows;
      },
      map (claim_job worker_id now) batch,
    )

unfoldable pub is_claimed : ℕ → String → IikoSyncJob → Bool
is_claimed job_id worker_id j =
    j.id == job_id && (is_running j.status && holds_text j.lock_owner worker_id)

unfoldable pub get_claimed_job : ℕ → String → JobTable → Option IikoSyncJob
unfolding is_claimed
get_claimed_job job_id worker_id t = first (is_claimed job_id worker_id) t.rows
