-- ===== src/Worker/Release.antt =====
-- A job that the worker of app/workers/iiko_sync_worker.py has processed is not left claimed.
use sardoba_app_server.Prelude.{
  ℕ, ◌≡◌, refl, String, Bool, false, none, List, [], ◌∷◌, inl, inr, Bool-cases, Option-cases, first,
  update_rows, arith,
}
use sardoba_app_server.Failure.{Outcome, ok, raised}
use sardoba_app_server.SyncJobs.{IikoSyncJob, JobTable, is_running}
use sardoba_app_server.SyncJobs.Claims.{get_claimed_job, is_claimed}
use sardoba_app_server.SyncJobs.Outcomes.{
  with_claimed, lock_busy_job, requeue_lock_busy, transient_job, requeue_transient, success_job,
  mark_success, retry_job, mark_retry,
}
use sardoba_app_server.SyncJobs.System.{run}
use sardoba_app_server.Worker.{
  Operations, Run, transient_of, execute_operation, report, per_user_lock_key, process_claimed,
  process_job,
}

first-changed :
    (p : IikoSyncJob → Bool) (f : IikoSyncJob → IikoSyncJob)
    → ((j : IikoSyncJob) → p (f j) ≡ false)
    → (js : List IikoSyncJob) → first p (update_rows p f js) ≡ none
unfolding first update_rows
first-changed p f gone [] = refl
first-changed p f gone (j ∷ js) = ground (arith, gone j, first-changed p f gone js)

-- A change that takes a job out of `running` releases it, where the worker held it.
with_claimed-releases :
    (job_id : ℕ) (worker_id : String) (change : IikoSyncJob → IikoSyncJob) (t : JobTable)
    → ((j : IikoSyncJob) → is_running (change j).status ≡ false)
    → get_claimed_job job_id worker_id (with_claimed job_id worker_id change t).0 ≡ none
unfolding with_claimed get_claimed_job is_claimed
with_claimed-releases job_id worker_id change t stopped =
    elim (Option-cases (first (is_claimed job_id worker_id) t.rows)) [
      | inl e ↦ rw (e, with_claimed) e
      | inr (j, e) ↦
          rw (e, with_claimed)
            (first-changed (is_claimed job_id worker_id) change (λ j. rw (stopped j) (ground arith))
              t.rows)
    ]

retry-stopped :
    (now : ℕ) (error : String) (j : IikoSyncJob) → is_running (retry_job now error j).status ≡ false
unfolding retry_job
retry-stopped now error j = ground arith

module _ {W : Type 0} (o : Operations W) where
  report-releases :
      (worker_id : String) (job_id now : ℕ) (r : Outcome (Unit {0})) (t : JobTable)
      → get_claimed_job job_id worker_id (report o worker_id job_id now r t) ≡ none
  unfolding report mark_success mark_retry requeue_transient success_job transient_job
  report-releases worker_id job_id now (ok u) t =
      with_claimed-releases job_id worker_id (success_job now) t (λ j. refl)
  report-releases worker_id job_id now (raised e) t = elim (Option-cases (transient_of e)) [
    | inl f ↦
        rw (f, report)
          (with_claimed-releases job_id worker_id (retry_job now (o.text_of e)) t
            (retry-stopped now (o.text_of e)))
    | inr ((message, delay), f) ↦
        rw (f, report)
          (with_claimed-releases job_id worker_id (transient_job now message delay) t (λ j. refl))
  ]

  claimed-releases :
      (worker_id : String) (r : Run o) (job_id : ℕ) (job : IikoSyncJob) (t : JobTable) (w : W)
      → get_claimed_job job_id worker_id (process_claimed o worker_id r job_id job (t, w)).0 ≡ none
  unfolding process_claimed requeue_lock_busy lock_busy_job
  claimed-releases worker_id r job_id job t w =
      elim (Bool-cases (r.lock_free (per_user_lock_key job.user_id job.phone))) [
        | inl free ↦
            let (result, w') = execute_operation o job w in
            rw free (report-releases worker_id job_id r.later result (run t r.meanwhile))
        | inr busy ↦ rw busy (
            with_claimed-releases job_id worker_id (lock_busy_job r.now "user_lock_busy") t
              (λ j. refl))
      ]

  -- After a worker has processed a job it does not hold it any more: whether the lock was busy, the operation
  -- went well, failed for a while or for good, and whatever others did to the queue in the meantime.
  pub process_job-releases :
      (worker_id : String) (r : Run o) (job_id : ℕ) (t : JobTable) (w : W)
      → get_claimed_job job_id worker_id (process_job o worker_id r job_id (t, w)).0 ≡ none
  unfolding process_job
  process_job-releases worker_id r job_id t w =
      elim (Option-cases (get_claimed_job job_id worker_id t)) [
        | inl e ↦ rw (e, process_job) e
        | inr (job, e) ↦ rw (e, process_job) (claimed-releases worker_id r job_id job t w)
      ]
