-- ===== src/SyncJobs.antt =====
-- The queue of iiko synchronisation jobs: app/services/iiko_sync_job_service.py and the row type of
-- app/models/iiko_sync_job.py. Times count microseconds; each function is the table after its commit.
pub mod Claims
pub mod Outcomes
pub mod System
pub mod Valid
pub mod Backoff
pub mod Lifecycle
pub mod Exclusive
pub mod Finality
pub mod Coalesce
mod Tests
use text.Mathlib.Text.{◌==◌ as str_eq}
use sardoba_app_server.Prelude.{
  ℕ, zero, suc, ◌+◌, ◌-◌, ◌*◌, ◌^◌, min, max, String, Bool, true, false, not, ◌&&◌, ◌||◌, Option,
  none, some, List, [], ◌∷◌, ◌++◌, map, ltb, leb, ◌==◌, if◌then◌else◌, length, take, first, select,
  update_rows, order_by,
}
use sardoba_app_server.Prelude.Dict
use sardoba_app_server.Prelude.Dict.{Dict}
pub use sardoba_app_server.Prelude.Unique.{holds_text}
use sardoba_app_server.Json.{Json, bool, str, obj, fields_of}

pub data JobStatus : Type 0 where
  pending running failed success paused : JobStatus

abbrev pub op_sync_user : String
op_sync_user = "sync_user"

abbrev pub op_flush_profile : String
op_flush_profile = "flush_profile"

abbrev pub op_mark_deleted : String
op_mark_deleted = "mark_deleted"

abbrev pub default_max_attempts : ℕ
default_max_attempts = 8

abbrev pub base_backoff_seconds : ℕ
base_backoff_seconds = 15

abbrev pub max_backoff_seconds : ℕ
max_backoff_seconds = 30 * 60

-- A second, and the delays of the class, in microseconds.
abbrev pub seconds : ℕ → ℕ
seconds n = n * 1_000_000

abbrev pub lock_busy_delay : ℕ
lock_busy_delay = seconds 2

abbrev pub transient_retry_delay : ℕ
transient_retry_delay = seconds 1

pub record IikoSyncJob : Type 0 where
  pub id : ℕ
  pub user_id : Option ℕ
  pub phone : Option String
  pub operation : String
  pub status : JobStatus
  pub payload : Dict Json
  pub attempt_count : ℕ
  pub max_attempts : ℕ
  pub next_retry_at : ℕ
  pub last_attempt_at : Option ℕ
  pub completed_at : Option ℕ
  pub lock_owner : Option String
  pub locked_at : Option ℕ
  pub last_error : Option String

-- The table in the order of its ids, and the value of its sequence.
pub record JobTable : Type 0 where
  pub rows : List IikoSyncJob
  pub next_id : ℕ

abbrev pub empty : JobTable
empty = record { rows = []; next_id = 1 }

-- `status IN (pending, failed, paused)` and `status IN (pending, failed)`.
abbrev pub is_active : JobStatus → Bool
is_active pending = true
is_active failed = true
is_active paused = true
is_active _ = false

abbrev pub is_waiting : JobStatus → Bool
is_waiting pending = true
is_waiting failed = true
is_waiting _ = false

abbrev pub is_running : JobStatus → Bool
is_running running = true
is_running _ = false

-- `column == value` in SQL: never true of a NULL.
abbrev pub holds_num : Option ℕ → ℕ → Bool
holds_num none n = false
holds_num (some m) n = m == n

abbrev pub is_none {ℓ} : {A : Type ℓ} → Option A → Bool
is_none none = true
is_none (some a) = false

-- The filters that `_find_active_job` adds for its caller's identifiers; an empty phone is falsy.
unfoldable pub matches_owner : Option ℕ → Option String → IikoSyncJob → Bool
matches_owner (some u) phone j = holds_num j.user_id u
matches_owner none none j = true
matches_owner none (some p) j =
    if str_eq p "" then true else is_none j.user_id && holds_text j.phone p

unfoldable pub is_candidate : String → Option ℕ → Option String → IikoSyncJob → Bool
unfolding matches_owner
is_candidate operation user_id phone j =
    str_eq j.operation operation && is_active j.status && matches_owner user_id phone j

unfoldable pub newest_first : IikoSyncJob → IikoSyncJob → Bool
newest_first a b = ltb b.id a.id

unfoldable pub find_active_job : String → Option ℕ → Option String → JobTable → Option IikoSyncJob
unfolding newest_first
find_active_job operation user_id phone t =
    first (is_candidate operation user_id phone) (order_by newest_first t.rows)

unfoldable pub merge_payload : Dict Json → Dict Json → Dict Json
merge_payload existing incoming = Dict.update existing incoming

-- `max_attempts or DEFAULT_MAX_ATTEMPTS`, at least one.
unfoldable pub target_attempts : Option ℕ → ℕ
target_attempts none = max 1 default_max_attempts
target_attempts (some zero) = max 1 default_max_attempts
target_attempts (some (suc n)) = max 1 (suc n)

unfoldable pub reset_job : ℕ → ℕ → Dict Json → IikoSyncJob → IikoSyncJob
reset_job now attempts payload j = record j {
  payload = merge_payload j.payload payload;
  status = pending;
  attempt_count = 0;
  next_retry_at = now;
  last_attempt_at = none;
  last_error = none;
  completed_at = none;
  lock_owner = none;
  locked_at = none;
  max_attempts = attempts;
}

unfoldable pub new_job : ℕ → ℕ → ℕ → String → Option ℕ → Option String → Dict Json → IikoSyncJob
new_job id now attempts operation user_id phone payload = record {
  id = id;
  user_id = user_id;
  phone = phone;
  operation = operation;
  status = pending;
  payload = payload;
  attempt_count = 0;
  max_attempts = attempts;
  next_retry_at = now;
  last_attempt_at = none;
  completed_at = none;
  lock_owner = none;
  locked_at = none;
  last_error = none;
}

-- What `_enqueue` takes from its callers.
pub record Request : Type 0 where
  pub operation : String
  pub user_id : Option ℕ
  pub phone : Option String
  pub payload : Dict Json
  pub max_attempts : Option ℕ

-- The row that the query found: it has that id, and it passed the filters.
unfoldable pub is_existing : Request → IikoSyncJob → IikoSyncJob → Bool
unfolding is_candidate
is_existing r existing j = j.id == existing.id && is_candidate r.operation r.user_id r.phone j

unfoldable pub enqueue_at : Request → ℕ → JobTable → Option IikoSyncJob → JobTable × IikoSyncJob
unfolding is_existing target_attempts reset_job new_job
enqueue_at r now t none =
    let attempts = target_attempts r.max_attempts in
    let job = new_job t.next_id now attempts r.operation r.user_id r.phone r.payload in
    (record { rows = t.rows ++ job ∷ []; next_id = t.next_id + 1 }, job)
enqueue_at r now t (some existing) =
    let reset = reset_job now (target_attempts r.max_attempts) r.payload in
    (record t { rows = update_rows (is_existing r existing) reset t.rows }, reset existing)

unfoldable pub enqueue : Request → ℕ → JobTable → JobTable × IikoSyncJob
unfolding enqueue_at find_active_job
enqueue r now t = enqueue_at r now t (find_active_job r.operation r.user_id r.phone t)

-- The three public entries, with the payload that each builds.
abbrev pub user_sync_request : ℕ → String → Bool → String → Request
user_sync_request user_id phone create_if_missing source = record {
  operation = op_sync_user;
  user_id = some user_id;
  phone = some phone;
  payload = ("create_if_missing", bool create_if_missing) ∷ ("source", str source) ∷ [];
  max_attempts = none;
}

abbrev pub profile_sync_request : ℕ → String → String → Request
profile_sync_request user_id phone source = record {
  operation = op_flush_profile;
  user_id = some user_id;
  phone = some phone;
  payload = ("source", str source) ∷ [];
  max_attempts = none;
}

-- `full_name or ""`, and the customer id only where there is a non-empty one.
abbrev delete_payload : String → Option String → Option String → Dict Json
delete_payload phone customer_id full_name =
    let base : Dict Json =
      ("isDeleted", bool true)
      ∷ ("name", str (elim full_name [ none ↦ "" | some n ↦ n ]))
      ∷ ("phone", str phone)
      ∷ [] in
    elim customer_id [
      | none ↦ base
      | some c ↦ if str_eq c "" then base else Dict.insert "id" (str c) base
    ]

abbrev pub delete_sync_request :
    Option ℕ → String → Option String → Option String → String → Request
delete_sync_request user_id phone customer_id full_name source = record {
  operation = op_mark_deleted;
  user_id = user_id;
  phone = some phone;
  payload =
      ("source", str source)
      ∷ ("iiko_payload", obj (fields_of (delete_payload phone customer_id full_name)))
      ∷ [];
  max_attempts = none;
}
