-- ===== src/Worker.antt =====
-- app/workers/iiko_sync_worker.py. What the operations do, each in its own session, is a parameter with its
-- state; so are the lock service, the times and what others do to the queue in the meantime. Metrics and
-- logging are left out.
pub mod History
pub mod Release
mod Tests
use text.Mathlib.Text.{◌==◌ as str_eq}
use sardoba_app_server.Prelude.{
  ℕ, ◌*◌, String, Bool, true, false, Option, none, some, List, [], ◌∷◌, max, length, if◌then◌else◌,
}
use sardoba_app_server.Prelude.Dict.{Dict, lookup}
use sardoba_app_server.Json.{Json, obj, Fields, dict_of}
use sardoba_app_server.Failure.{
  Failure, Outcome, ok, raised, transient_service_error, value_error, runtime_error,
}
use sardoba_app_server.Models.{User}
use sardoba_app_server.Tokens.{is_true}
use sardoba_app_server.SyncJobs.{
  IikoSyncJob, JobTable, op_sync_user, op_flush_profile, op_mark_deleted, seconds,
}
use sardoba_app_server.SyncJobs.Claims.{claim_due_jobs, get_claimed_job}
use sardoba_app_server.SyncJobs.Outcomes.{
  requeue_lock_busy, requeue_transient, mark_success, mark_retry, recover_stuck_jobs,
}
use sardoba_app_server.SyncJobs.System.{JobCall, run}

abbrev pub stuck_job_timeout : ℕ
stuck_job_timeout = 120

abbrev pub stuck_recovery_limit : ℕ
stuck_recovery_limit = 200

-- What `sync_user_from_iiko` reports: whether it went well, and the reason if not.
pub record SyncReport : Type 0 where
  pub ok? : Bool
  pub error : Option String

pub record Operations (W : Type 0) : Type 0 where
  pub find_user : ℕ → W → Option User
  pub sync_user_from_iiko : User → Bool → W → Outcome SyncReport × W
  pub flush_pending_updates : User → W → Outcome (Unit {0}) × W
  pub create_or_update_customer : String → Dict Json → W → Outcome (Unit {0}) × W
  pub text_of : Failure → String

-- The keys of the locks; the text of a key names its kind and value.
pub data LockKey : Type 0 where
  user_lock : ℕ → LockKey
  phone_lock : String → LockKey
  unknown_lock : LockKey

unfoldable pub per_user_lock_key : Option ℕ → Option String → LockKey
per_user_lock_key (some id) phone = user_lock id
per_user_lock_key none none = unknown_lock
per_user_lock_key none (some phone) = if str_eq phone "" then unknown_lock else phone_lock phone

-- `except TransientServiceError`
abbrev pub transient_of : Failure → Option (String × Option ℕ)
transient_of (transient_service_error message delay) = some (message, delay)
transient_of _ = none

module _ {W : Type 0} (o : Operations W) where
  flush_if_pending : Option User → W → Outcome (Unit {0}) × W
  flush_if_pending none w = (ok tt, w)
  flush_if_pending (some u) w = elim u.pending_iiko_profile_update [
    | none ↦ (ok tt, w)
    | some [] ↦ (ok tt, w)
    | some (p ∷ ps) ↦ o.flush_pending_updates u w
  ]

  abbrev reason : Option String → String
  reason none = "iiko_sync_failed"
  reason (some e) = if str_eq e "" then "iiko_sync_failed" else e

  -- The rest of a synchronisation, on the user's row as it is then.
  after_sync : ℕ → Outcome SyncReport × W → Outcome (Unit {0}) × W
  unfolding flush_if_pending
  after_sync id (raised e, w) = (raised e, w)
  after_sync id (ok r, w) =
      if r.ok?
      then flush_if_pending (o.find_user id w) w
      else (raised (runtime_error (reason r.error)), w)

  unfoldable pub execute_user_sync : Option ℕ → Bool → W → Outcome (Unit {0}) × W
  unfolding after_sync
  execute_user_sync none create w = (raised (value_error "sync_user operation requires user_id"), w)
  execute_user_sync (some id) create w = elim (o.find_user id w) [
    | none ↦ (ok tt, w)
    | some u ↦ if u.is_deleted then (ok tt, w) else after_sync id (o.sync_user_from_iiko u create w)
  ]

  unfoldable pub execute_profile_flush : Option ℕ → W → Outcome (Unit {0}) × W
  unfolding flush_if_pending
  execute_profile_flush none w =
      (raised (value_error "flush_profile operation requires user_id"), w)
  execute_profile_flush (some id) w = elim (o.find_user id w) [
    | none ↦ (ok tt, w)
    | some u ↦ if u.is_deleted then (ok tt, w) else flush_if_pending (some u) w
  ]

  customer_update : String → Option Json → W → Outcome (Unit {0}) × W
  customer_update phone (some (obj fields)) w = o.create_or_update_customer phone (dict_of fields) w
  customer_update phone _ w =
      (raised (value_error "mark_deleted operation requires iiko_payload"), w)

  unfoldable pub execute_mark_deleted : Option String → Dict Json → W → Outcome (Unit {0}) × W
  unfolding customer_update lookup
  execute_mark_deleted none payload w =
      (raised (value_error "mark_deleted operation requires phone"), w)
  execute_mark_deleted (some phone) payload w =
      if str_eq phone ""
      then (raised (value_error "mark_deleted operation requires phone"), w)
      else customer_update phone (lookup "iiko_payload" payload) w

  unfoldable pub execute_operation : IikoSyncJob → W → Outcome (Unit {0}) × W
  unfolding execute_user_sync execute_profile_flush execute_mark_deleted is_true lookup
  execute_operation job w =
      if str_eq job.operation op_sync_user
      then execute_user_sync job.user_id (is_true (lookup "create_if_missing" job.payload)) w
      else (if str_eq job.operation op_flush_profile
          then execute_profile_flush job.user_id w
          else (if str_eq job.operation op_mark_deleted
              then execute_mark_deleted job.phone job.payload w
              else (raised (value_error "Unsupported iiko sync operation"), w)))

  -- What the worker reports of an operation.
  unfoldable pub report : String → ℕ → ℕ → Outcome (Unit {0}) → JobTable → JobTable
  report worker_id job_id now (ok _) t = (mark_success job_id worker_id now t).0
  report worker_id job_id now (raised e) t = elim (transient_of e) [
    | none ↦ (mark_retry job_id worker_id (o.text_of e) now t).0
    | some (message, delay) ↦ (requeue_transient job_id worker_id message delay now t).0
  ]

  -- How one job fares: when it starts and ends, which locks are free, what others do meanwhile.
  pub record Run : Type 0 where
    pub now : ℕ
    pub later : ℕ
    pub lock_free : LockKey → Bool
    pub meanwhile : List JobCall

  unfoldable pub process_claimed : String → Run → ℕ → IikoSyncJob → JobTable × W → JobTable × W
  unfolding per_user_lock_key execute_operation report run
  process_claimed worker_id r job_id job (t, w) =
      if r.lock_free (per_user_lock_key job.user_id job.phone)
      then (let (result, w') = execute_operation job w in
          (report worker_id job_id r.later result (run t r.meanwhile), w'))
      else ((requeue_lock_busy job_id worker_id "user_lock_busy" r.now t).0, w)

  unfoldable pub process_job : String → Run → ℕ → JobTable × W → JobTable × W
  unfolding process_claimed
  process_job worker_id r job_id (t, w) = elim (get_claimed_job job_id worker_id t) [
    | none ↦ (t, w)
    | some job ↦ process_claimed worker_id r job_id job (t, w)
  ]

  unfoldable pub process_all : String → (ℕ → Run) → List IikoSyncJob → JobTable × W → JobTable × W
  unfolding process_job
  process_all worker_id runs [] s = s
  process_all worker_id runs (j ∷ js) s =
      process_all worker_id runs js (process_job worker_id (runs j.id) j.id s)

  unfoldable pub run_once :
      String → ℕ → (ℕ → Bool) → ℕ → (ℕ → Run) → JobTable × W → ℕ × (JobTable × W)
  unfolding process_all
  run_once worker_id batch_size row_locked now runs (t, w) =
      let (t₁, recovered) =
        recover_stuck_jobs row_locked stuck_job_timeout stuck_recovery_limit now t in
      let (t₂, jobs) = claim_due_jobs row_locked worker_id (max 1 batch_size) now t₁ in
      (length jobs, process_all worker_id runs jobs (t₂, w))
