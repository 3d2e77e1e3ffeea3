-- ===== src/SyncJobs/Lifecycle.antt =====
-- The life of a job as a diagram of statuses: every operation of
-- app/services/iiko_sync_job_service.py moves each row along one of its edges.
use sardoba_app_server.Prelude.{
  ℕ, ◌≡◌, refl, String, Bool, true, false, Option, none, some, List, [], ◌∷◌, ◌++◌, arith, ◌⊎◌, inl,
  inr, Option-cases, if◌then◌else◌, update_rows,
}
use sardoba_app_server.SyncJobs.{
  IikoSyncJob, JobTable, JobStatus, pending, running, failed, success, paused, Request, is_existing,
  reset_job, enqueue_at, enqueue, find_active_job,
}
use sardoba_app_server.SyncJobs.Claims.{
  claim_job, in_batch, claim_due_jobs, is_claimed, get_claimed_job,
}
use sardoba_app_server.SyncJobs.Outcomes.{
  with_claimed, lock_busy_job, transient_job, success_job, retry_job, recovered_job, in_stuck,
  requeue_lock_busy, requeue_transient, mark_success, mark_retry, recover_stuck_jobs,
}
use sardoba_app_server.SyncJobs.System.{
  JobCall, enqueues, claims, requeues_busy, requeues_transient, succeeds, retries, recovers, step,
}

-- The edges. There is none out of `success`, and only a claim leads to `running`.
abbrev pub Edge : JobStatus → JobStatus → Type 0
Edge pending pending = Unit
Edge pending running = Unit
Edge failed running = Unit
Edge failed pending = Unit
Edge paused pending = Unit
Edge running pending = Unit
Edge running success = Unit
Edge running failed = Unit
Edge running paused = Unit
Edge _ _ = ⊥

-- What one operation may do to a row: nothing, or an edge; never a change of identity.
abbrev pub Moves : IikoSyncJob → IikoSyncJob → Type 0
Moves j k =
    (j ≡ k)
    ⊎ ((j.id ≡ k.id)
        × (j.operation ≡ k.operation)
        × (j.user_id ≡ k.user_id)
        × (j.phone ≡ k.phone)
        × Edge j.status k.status)

-- Row by row, in the order of the table; new rows come after the old ones.
abbrev pub Tracks : List IikoSyncJob → List IikoSyncJob → Type 0
Tracks [] ks = Unit
Tracks (j ∷ js) [] = ⊥
Tracks (j ∷ js) (k ∷ ks) = Moves j k × Tracks js ks

Tracks-append : (js : List IikoSyncJob) (k : IikoSyncJob) → Tracks js (js ++ k ∷ [])
Tracks-append [] k = tt
Tracks-append (j ∷ js) k = (inl refl, Tracks-append js k)

Moves-if : (b : Bool) (j k : IikoSyncJob) → (b ≡ true → Moves j k) → Moves j (if b then k else j)
Moves-if true j k h = h refl
Moves-if false j k h = inl refl

Tracks-update_rows :
    (p : IikoSyncJob → Bool) (f : IikoSyncJob → IikoSyncJob)
    → ((j : IikoSyncJob) → p j ≡ true → Moves j (f j))
    → (js : List IikoSyncJob) → Tracks js (update_rows p f js)
unfolding update_rows
Tracks-update_rows p f moves [] = tt
Tracks-update_rows p f moves (j ∷ js) =
    (Moves-if (p j) j (f j) (moves j), Tracks-update_rows p f moves js)

Tracks-refl : (js : List IikoSyncJob) → Tracks js js
Tracks-refl [] = tt
Tracks-refl (j ∷ js) = (inl refl, Tracks-refl js)

with_claimed-Tracks :
    (id : ℕ) (w : String) (f : IikoSyncJob → IikoSyncJob) (t : JobTable)
    → ((j : IikoSyncJob) → is_claimed id w j ≡ true → Moves j (f j))
    → Tracks t.rows (with_claimed id w f t).0.rows
unfolding with_claimed
with_claimed-Tracks id w f t moves = elim (Option-cases (get_claimed_job id w t)) [
  | inl e ↦ rw (e, with_claimed) (Tracks-refl t.rows)
  | inr (j, e) ↦ rw (e, with_claimed) (Tracks-update_rows (is_claimed id w) f moves t.rows)
]

reset-Edge :
    (r : Request) (e : IikoSyncJob) (j : IikoSyncJob)
    → is_existing r e j ≡ true
    → Edge j.status pending
unfolding is_existing
reset-Edge r e j h = ground arith

enqueue_at-Tracks :
    (r : Request) (now : ℕ) (t : JobTable) (o : Option IikoSyncJob)
    → Tracks t.rows (enqueue_at r now t o).0.rows
unfolding enqueue_at reset_job
enqueue_at-Tracks r now t none = Tracks-append t.rows _
enqueue_at-Tracks r now t (some e) =
    Tracks-update_rows _ _ (λ j h. inr (refl, refl, refl, refl, reset-Edge r e j h)) t.rows

claim-Edge :
    (row_locked : ℕ → Bool) (now : ℕ) (batch : List IikoSyncJob) (j : IikoSyncJob)
    → in_batch row_locked now batch j ≡ true
    → Edge j.status running
unfolding in_batch
claim-Edge row_locked now batch j h = ground arith

-- A job that its worker reports on is running.
report-Edge :
    (id : ℕ) (w : String) (j : IikoSyncJob) (s : JobStatus)
    → is_claimed id w j ≡ true
    → Edge running s
    → Edge j.status s
unfolding is_claimed
report-Edge id w j s h e = ground arith

stuck-Edge :
    (row_locked : ℕ → Bool) (stale now : ℕ) (batch : List IikoSyncJob) (j : IikoSyncJob)
    → in_stuck row_locked stale now batch j ≡ true
    → Edge j.status pending
unfolding in_stuck
stuck-Edge row_locked stale now batch j h = ground arith

retry-Moves :
    (now : ℕ) (error : String) (id : ℕ) (w : String) (j : IikoSyncJob)
    → is_claimed id w j ≡ true
    → Moves j (retry_job now error j)
unfolding retry_job is_claimed
retry-Moves now error id w j h =
    inr (ground arith, ground arith, ground arith, ground arith, ground arith)

-- Every operation leaves each row as it is or moves it along an edge of the diagram, keeping its id,
-- operation, user and phone; rows are neither lost nor reordered.
pub step-Tracks : (t : JobTable) (c : JobCall) → Tracks t.rows (step t c).rows
unfolding step enqueue claim_due_jobs recover_stuck_jobs requeue_lock_busy requeue_transient
    mark_success mark_retry claim_job lock_busy_job transient_job success_job recovered_job
step-Tracks t (enqueues r now) =
    enqueue_at-Tracks r now t (find_active_job r.operation r.user_id r.phone t)
step-Tracks t (claims row_locked w limit now) =
    Tracks-update_rows _ _ (λ j h. inr (refl, refl, refl, refl, claim-Edge row_locked now _ j h))
      t.rows
step-Tracks t (requeues_busy id w reason now) =
    with_claimed-Tracks id w _ t
      (λ j h. inr (refl, refl, refl, refl, report-Edge id w j pending h tt))
step-Tracks t (requeues_transient id w reason delay now) =
    with_claimed-Tracks id w _ t
      (λ j h. inr (refl, refl, refl, refl, report-Edge id w j pending h tt))
step-Tracks t (succeeds id w now) =
    with_claimed-Tracks id w _ t
      (λ j h. inr (refl, refl, refl, refl, report-Edge id w j success h tt))
step-Tracks t (retries id w error now) = with_claimed-Tracks id w _ t (retry-Moves now error id w)
step-Tracks t (recovers row_locked stale limit now) =
    Tracks-update_rows _ _ (λ j h. inr (refl, refl, refl, refl, stuck-Edge row_locked _ now _ j h))
      t.rows
