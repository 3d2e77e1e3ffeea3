-- ===== src/SyncJobs/Valid.antt =====
-- The well-formedness of the job table, and that every operation of
-- app/services/iiko_sync_job_service.py keeps it.
use sardoba_app_server.Prelude.{
  ℕ, zero, suc, ◌+◌, ◌≤◌, ◌<◌, ◌≡◌, refl, String, Bool, true, false, Option, none, some, List, [],
  ◌∷◌, ◌++◌, arith, inl, inr, Option-cases, All, All-append, All-update_rows, update_rows,
}
use sardoba_app_server.SyncJobs.{
  IikoSyncJob, JobTable, JobStatus, pending, running, failed, success, paused, empty, Request,
  is_none, target_attempts, reset_job, new_job, is_existing, enqueue_at, enqueue, find_active_job,
}
use sardoba_app_server.SyncJobs.Claims.{
  claim_job, in_batch, claim_due_jobs, is_claimed, get_claimed_job,
}
use sardoba_app_server.SyncJobs.Outcomes.{
  with_claimed, lock_busy_job, transient_job, success_job, retry_job, recovered_job, in_stuck,
  requeue_lock_busy, requeue_transient, mark_success, mark_retry, recover_stuck_jobs,
}
use sardoba_app_server.SyncJobs.System.{
  JobCall, enqueues, claims, requeues_busy, requeues_transient, succeeds, retries, recovers, step,
  run,
}

-- What a status says of the other columns: only a running job is locked, a job that may still be
-- claimed has attempts left, and a paused one has none.
abbrev pub Coherent : JobStatus → IikoSyncJob → Type 0
Coherent pending j =
    (j.attempt_count < j.max_attempts) × (j.lock_owner ≡ none) × (j.locked_at ≡ none)
Coherent failed j =
    (1 ≤ j.attempt_count)
    × (j.attempt_count < j.max_attempts)
    × (j.lock_owner ≡ none)
    × (j.locked_at ≡ none)
Coherent running j =
    (j.attempt_count < j.max_attempts)
    × (is_none j.lock_owner ≡ false)
    × (is_none j.locked_at ≡ false)
Coherent success j =
    (1 ≤ j.attempt_count)
    × (j.attempt_count ≤ j.max_attempts)
    × (is_none j.completed_at ≡ false)
    × (j.lock_owner ≡ none)
    × (j.locked_at ≡ none)
Coherent paused j =
    (j.attempt_count ≡ j.max_attempts) × (j.lock_owner ≡ none) × (j.locked_at ≡ none)

abbrev pub JobIsValid : IikoSyncJob → Type 0
JobIsValid j = Coherent j.status j

-- The ids rise along the table, from `lo` on and below `hi`.
abbrev pub IdsRise : ℕ → List IikoSyncJob → ℕ → Type 0
IdsRise lo [] hi = lo ≤ hi
IdsRise lo (j ∷ js) hi = (lo ≤ j.id) × IdsRise (suc j.id) js hi

pub record IsValid (t : JobTable) : Type 0 where
  pub coherent : All JobIsValid t.rows
  pub ids : IdsRise 1 t.rows t.next_id

claim_job-JobIsValid :
    (row_locked : ℕ → Bool) (w : String) (now : ℕ) (batch : List IikoSyncJob) (j : IikoSyncJob)
    → JobIsValid j
    → in_batch row_locked now batch j ≡ true
    → JobIsValid (claim_job w now j)
unfolding claim_job in_batch
claim_job-JobIsValid row_locked w now batch j v h = ground arith

IdsRise-update_rows :
    (p : IikoSyncJob → Bool) (f : IikoSyncJob → IikoSyncJob)
    → ((j : IikoSyncJob) → p j ≡ true → (f j).id ≡ j.id)
    → (lo : ℕ) (js : List IikoSyncJob) (hi : ℕ) → IdsRise lo js hi
    → IdsRise lo (update_rows p f js) hi
unfolding update_rows
IdsRise-update_rows p f same lo [] hi h = h
IdsRise-update_rows p f same lo (j ∷ js) hi h =
    ground (arith, same j, IdsRise-update_rows p f same (suc j.id) js hi h.1)

IdsRise-append :
    (lo : ℕ) (js : List IikoSyncJob) (j : IikoSyncJob) (hi : ℕ)
    → j.id ≡ hi
    → IdsRise lo js hi
    → IdsRise lo (js ++ j ∷ []) (hi + 1)
IdsRise-append lo [] j hi e h = omega arith
IdsRise-append lo (k ∷ js) j hi e h = (h.0, IdsRise-append (suc k.id) js j hi e h.1)

retry_job-JobIsValid :
    (now : ℕ) (error : String) (id : ℕ) (w : String) (j : IikoSyncJob)
    → JobIsValid j
    → is_claimed id w j ≡ true
    → JobIsValid (retry_job now error j)
unfolding retry_job is_claimed
retry_job-JobIsValid now error id w j v h = ground arith

success_job-JobIsValid :
    (now id : ℕ) (w : String) (j : IikoSyncJob)
    → JobIsValid j
    → is_claimed id w j ≡ true
    → JobIsValid (success_job now j)
unfolding success_job is_claimed
success_job-JobIsValid now id w j v h = ground arith

lock_busy_job-JobIsValid :
    (now : ℕ) (reason : String) (id : ℕ) (w : String) (j : IikoSyncJob)
    → JobIsValid j
    → is_claimed id w j ≡ true
    → JobIsValid (lock_busy_job now reason j)
unfolding lock_busy_job is_claimed
lock_busy_job-JobIsValid now reason id w j v h = ground arith

transient_job-JobIsValid :
    (now : ℕ) (reason : String) (delay : Option ℕ) (id : ℕ) (w : String) (j : IikoSyncJob)
    → JobIsValid j
    → is_claimed id w j ≡ true
    → JobIsValid (transient_job now reason delay j)
unfolding transient_job is_claimed
transient_job-JobIsValid now reason delay id w j v h = ground arith

recovered_job-JobIsValid :
    (row_locked : ℕ → Bool) (stale now : ℕ) (batch : List IikoSyncJob) (j : IikoSyncJob)
    → JobIsValid j
    → in_stuck row_locked stale now batch j ≡ true
    → JobIsValid (recovered_job now j)
unfolding recovered_job in_stuck
recovered_job-JobIsValid row_locked stale now batch j v h = ground arith

module _ (p : IikoSyncJob → Bool) (f : IikoSyncJob → IikoSyncJob) (t : JobTable) where
  -- One frame for every operation that changes rows in place.
  update-IsValid :
      ((j : IikoSyncJob) → p j ≡ true → (f j).id ≡ j.id)
      → ((j : IikoSyncJob) → JobIsValid j → p j ≡ true → JobIsValid (f j))
      → IsValid t
      → IsValid (record t { rows = update_rows p f t.rows })
  update-IsValid same keep v = record {
    coherent = All-update_rows JobIsValid p f keep t.rows v.coherent;
    ids = IdsRise-update_rows p f same 1 t.rows t.next_id v.ids;
  }

module _ (id : ℕ) (w : String) (f : IikoSyncJob → IikoSyncJob) (t : JobTable) where
  with_claimed-IsValid :
      ((j : IikoSyncJob) → is_claimed id w j ≡ true → (f j).id ≡ j.id)
      → ((j : IikoSyncJob) → JobIsValid j → is_claimed id w j ≡ true → JobIsValid (f j))
      → IsValid t
      → IsValid (with_claimed id w f t).0
  unfolding with_claimed
  with_claimed-IsValid same keep v = elim (Option-cases (get_claimed_job id w t)) [
    | inl e ↦ rw (e, with_claimed) v
    | inr (j, e) ↦ rw (e, with_claimed) (update-IsValid (is_claimed id w) f t same keep v)
  ]

target_attempts_pos : (o : Option ℕ) → 0 < target_attempts o
unfolding target_attempts
target_attempts_pos none = ground arith
target_attempts_pos (some zero) = ground arith
target_attempts_pos (some (suc n)) = ground arith

enqueue_at-IsValid :
    (r : Request) (now : ℕ) (t : JobTable) (o : Option IikoSyncJob)
    → IsValid t
    → IsValid (enqueue_at r now t o).0
unfolding enqueue_at new_job reset_job
enqueue_at-IsValid r now t none v =
    let full = target_attempts_pos r.max_attempts in
    record {
      coherent = All-append JobIsValid t.rows _ v.coherent ((full, refl, refl), tt);
      ids = IdsRise-append 1 t.rows _ t.next_id refl v.ids;
    }
enqueue_at-IsValid r now t (some existing) v =
    let full = target_attempts_pos r.max_attempts in
    update-IsValid (is_existing r existing) _ t (λ j _. refl) (λ j _ _. (full, refl, refl)) v

enqueue-IsValid : (r : Request) (now : ℕ) (t : JobTable) → IsValid t → IsValid (enqueue r now t).0
unfolding enqueue
enqueue-IsValid r now t v =
    enqueue_at-IsValid r now t (find_active_job r.operation r.user_id r.phone t) v

-- Every operation keeps the table well formed: rising ids, and the coherence of each job's status
-- with its lock, its attempts and its completion time.
pub step-IsValid : (t : JobTable) (c : JobCall) → IsValid t → IsValid (step t c)
unfolding step claim_due_jobs recover_stuck_jobs requeue_lock_busy requeue_transient mark_success
    mark_retry
step-IsValid t (enqueues r now) v = enqueue-IsValid r now t v
step-IsValid t (claims row_locked w limit now) v =
    update-IsValid _ _ t (λ j _. unfold claim_job in refl) (claim_job-JobIsValid row_locked w now _)
      v
step-IsValid t (requeues_busy id w reason now) v =
    with_claimed-IsValid id w _ t (λ j _. unfold lock_busy_job in refl)
      (lock_busy_job-JobIsValid now reason id w) v
step-IsValid t (requeues_transient id w reason delay now) v =
    with_claimed-IsValid id w _ t (λ j _. unfold transient_job in refl)
      (transient_job-JobIsValid now reason delay id w) v
step-IsValid t (succeeds id w now) v =
    with_claimed-IsValid id w _ t (λ j _. unfold success_job in refl)
      (success_job-JobIsValid now id w) v
step-IsValid t (retries id w error now) v =
    with_claimed-IsValid id w _ t (λ j _. unfold retry_job in ground arith)
      (retry_job-JobIsValid now error id w) v
step-IsValid t (recovers row_locked stale limit now) v =
    update-IsValid _ _ t (λ j _. unfold recovered_job in refl)
      (recovered_job-JobIsValid row_locked _ now _) v

-- From a well-formed table, such as the empty one, every history of operations by any number of
-- workers, in any order and with any rows locked, leads to a well-formed table.
pub run-IsValid : (t : JobTable) (cs : List JobCall) → IsValid t → IsValid (run t cs)
unfolding run
run-IsValid t [] v = v
run-IsValid t (c ∷ cs) v = run-IsValid (step t c) cs (step-IsValid t c v)

pub IsValid-empty : IsValid empty
IsValid-empty = record { coherent = tt; ids = omega arith }
