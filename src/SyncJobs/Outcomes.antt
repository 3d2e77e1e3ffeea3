-- ===== src/SyncJobs/Outcomes.antt =====
-- What a worker reports about a job that it has claimed, and the recovery of stuck jobs:
-- `requeue_lock_busy`, `requeue_transient`, `mark_success`, `mark_retry`, `recover_stuck_jobs` and
-- `_retry_delay` of app/services/iiko_sync_job_service.py.
use sardoba_app_server.Prelude.{
  ℕ, zero, suc, ◌+◌, ◌-◌, ◌*◌, ◌^◌, min, max, String, Bool, true, false, not, ◌&&◌, ◌||◌, Option,
  none, some, List, ltb, leb, ◌==◌, if◌then◌else◌, length, take, select, update_rows, order_by,
}
use sardoba_app_server.SyncJobs.{
  IikoSyncJob, JobTable, pending, failed, success, paused, is_running, seconds, lock_busy_delay,
  transient_retry_delay, base_backoff_seconds, max_backoff_seconds,
}
use sardoba_app_server.SyncJobs.Claims.{is_claimed, get_claimed_job, holds_id}

-- The first `n` characters.
abbrev prefix : ℕ → String → String
prefix zero s = String.[]
prefix (suc n) String.[] = String.[]
prefix (suc n) (String.◌∷◌ c s) = String.◌∷◌ c (prefix n s)

-- value[:2000]
unfoldable pub truncate_error : String → String
truncate_error value = prefix 2000 value

-- min(MAX_BACKOFF_SECONDS, BASE_BACKOFF_SECONDS * 2 ** max(attempts - 1, 0)), in seconds
unfoldable pub retry_seconds : ℕ → ℕ
retry_seconds attempts = min max_backoff_seconds (base_backoff_seconds * 2 ^ (attempts - 1))

unfoldable pub retry_delay : ℕ → ℕ
unfolding retry_seconds
retry_delay attempts = seconds (retry_seconds attempts)

-- The common frame: nothing happens unless the worker holds the job.
unfoldable pub with_claimed : ℕ → String → (IikoSyncJob → IikoSyncJob) → JobTable → JobTable × Bool
unfolding is_claimed get_claimed_job
with_claimed job_id worker_id change t = elim (get_claimed_job job_id worker_id t) [
  | none ↦ (t, false)
  | some job ↦ (record t { rows = update_rows (is_claimed job_id worker_id) change t.rows }, true)
]

unfoldable pub lock_busy_job : ℕ → String → IikoSyncJob → IikoSyncJob
lock_busy_job now reason j = record j {
  status = pending;
  next_retry_at = now + lock_busy_delay;
  lock_owner = none;
  locked_at = none;
  last_error = some reason;
}

unfoldable pub requeue_lock_busy : ℕ → String → String → ℕ → JobTable → JobTable × Bool
unfolding with_claimed lock_busy_job
requeue_lock_busy job_id worker_id reason now =
    with_claimed job_id worker_id (lock_busy_job now reason)

-- max(0.1, delay_seconds or the default), in microseconds; a negative delay is no more than 0.
unfoldable pub transient_delay : Option ℕ → ℕ
transient_delay none = max 100_000 transient_retry_delay
transient_delay (some delay) = max 100_000 delay

unfoldable pub transient_job : ℕ → String → Option ℕ → IikoSyncJob → IikoSyncJob
unfolding transient_delay truncate_error
transient_job now reason delay j = record j {
  status = pending;
  next_retry_at = now + transient_delay delay;
  lock_owner = none;
  locked_at = none;
  last_error = some (truncate_error reason);
}

unfoldable pub requeue_transient : ℕ → String → String → Option ℕ → ℕ → JobTable → JobTable × Bool
unfolding with_claimed transient_job
requeue_transient job_id worker_id reason delay now =
    with_claimed job_id worker_id (transient_job now reason delay)

unfoldable pub success_job : ℕ → IikoSyncJob → IikoSyncJob
success_job now j = record j {
  attempt_count = j.attempt_count + 1;
  status = success;
  completed_at = some now;
  last_error = none;
  lock_owner = none;
  locked_at = none;
}

unfoldable pub mark_success : ℕ → String → ℕ → JobTable → JobTable × Bool
unfolding with_claimed success_job
mark_success job_id worker_id now = with_claimed job_id worker_id (success_job now)

unfoldable pub retry_job : ℕ → String → IikoSyncJob → IikoSyncJob
unfolding retry_delay truncate_error
retry_job now error j =
    let attempts = j.attempt_count + 1 in
    let released = record j {
      attempt_count = attempts;
      last_error = some (truncate_error error);
      lock_owner = none;
      locked_at = none;
    } in
    if leb j.max_attempts attempts
    then record released { status = paused; next_retry_at = now }
    else record released { status = failed; next_retry_at = now + retry_delay attempts }

unfoldable pub mark_retry : ℕ → String → String → ℕ → JobTable → JobTable × Bool
unfolding with_claimed retry_job
mark_retry job_id worker_id error now = with_claimed job_id worker_id (retry_job now error)

-- `locked_at IS NOT NULL AND locked_at <= now - stale_after`.
abbrev locked_before : Option ℕ → ℕ → ℕ → Bool
locked_before none stale_after now = false
locked_before (some since) stale_after now = leb (since + stale_after) now

unfoldable pub is_stuck : (ℕ → Bool) → ℕ → ℕ → IikoSyncJob → Bool
is_stuck row_locked stale_after now j =
    is_running j.status && (locked_before j.locked_at stale_after now && not (row_locked j.id))

abbrev since : Option ℕ → ℕ
since none = 0
since (some n) = n

-- ORDER BY locked_at, id
stuck_first : IikoSyncJob → IikoSyncJob → Bool
stuck_first a b =
    ltb (since a.locked_at) (since b.locked_at)
    || (since a.locked_at == since b.locked_at && ltb a.id b.id)

unfoldable pub stuck_batch : (ℕ → Bool) → ℕ → ℕ → ℕ → List IikoSyncJob → List IikoSyncJob
unfolding is_stuck stuck_first
stuck_batch row_locked stale_after limit now rows =
    take (max 1 limit) (order_by stuck_first (select (is_stuck row_locked stale_after now) rows))

unfoldable pub recovered_job : ℕ → IikoSyncJob → IikoSyncJob
recovered_job now j = record j {
  status = pending;
  next_retry_at = now;
  lock_owner = none;
  locked_at = none;
  last_error = some "stuck_job_recovered";
}

unfoldable pub in_stuck : (ℕ → Bool) → ℕ → ℕ → List IikoSyncJob → IikoSyncJob → Bool
unfolding is_stuck holds_id
in_stuck row_locked stale_after now batch j =
    holds_id j.id batch && is_stuck row_locked stale_after now j

-- `stale_after_seconds` counts whole seconds, and at least one.
unfoldable pub recover_stuck_jobs : (ℕ → Bool) → ℕ → ℕ → ℕ → JobTable → JobTable × ℕ
unfolding stuck_batch in_stuck recovered_job
recover_stuck_jobs row_locked stale_after_seconds limit now t =
    let stale_after = seconds (max 1 stale_after_seconds) in
    let batch = stuck_batch row_locked stale_after limit now t.rows in
    (
      record t {
        rows = update_rows (in_stuck row_locked stale_after now batch) (recovered_job now) t.rows;
      },
      length batch,
    )
