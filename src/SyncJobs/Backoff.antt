-- ===== src/SyncJobs/Backoff.antt =====
-- The retry schedule of app/services/iiko_sync_job_service.py: `_retry_delay` and `mark_retry`.
use native.Mathlib.Nat.{pow-suc}
use sardoba_app_server.Prelude.{ℕ, zero, suc, ◌-◌, ◌*◌, ◌^◌, ◌≤◌, ◌≡◌, min, String, arith}
use sardoba_app_server.SyncJobs.{IikoSyncJob}
use sardoba_app_server.SyncJobs.Claims.{claim_job}
use sardoba_app_server.SyncJobs.Outcomes.{retry_seconds, retry_job}

pow_pos : (n : ℕ) → 1 ≤ 2 ^ n
pow_pos zero = omega arith
pow_pos (suc n) = omega (arith, pow_pos n, pow-suc 2 n)

retry_seconds-suc : (k : ℕ) → retry_seconds (suc k) ≡ min 1800 (15 * 2 ^ k)
unfolding retry_seconds
retry_seconds-suc k = let e : suc k - 1 ≡ k = omega arith in rw e

-- The k-th failure waits 15 seconds at first, then twice as long as the one before, and never more
-- than half an hour.
pub retry_seconds_schedule :
    (k : ℕ)
    → (retry_seconds 1 ≡ 15)
      × (retry_seconds (suc (suc k)) ≡ min 1800 (2 * retry_seconds (suc k)))
      × (15 ≤ retry_seconds (suc k))
      × (retry_seconds (suc k) ≤ 1800)
retry_seconds_schedule k = (
  omega (arith, retry_seconds-suc 0),
  omega (arith, retry_seconds-suc k, retry_seconds-suc (suc k), pow-suc 2 k),
  omega (arith, retry_seconds-suc k, pow_pos k),
  omega (arith, retry_seconds-suc k),
)

-- One failed attempt: the claim, then the report of the failure.
abbrev attempt_fails : String → ℕ → String → IikoSyncJob → IikoSyncJob
attempt_fails worker_id now error j = retry_job now error (claim_job worker_id now j)

-- `n` failed attempts in a row, at the times and with the errors that `times` and `errors` give.
pub fail_times : String → (ℕ → ℕ) → (ℕ → String) → ℕ → IikoSyncJob → IikoSyncJob
fail_times worker_id times errors zero j = j
fail_times worker_id times errors (suc n) j =
    attempt_fails worker_id (times n) (errors n) (fail_times worker_id times errors n j)
