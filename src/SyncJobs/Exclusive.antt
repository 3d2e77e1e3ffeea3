-- ===== src/SyncJobs/Exclusive.antt =====
-- Who may hold a job: claims of app/services/iiko_sync_job_service.py never overlap.
use sardoba_app_server.Prelude.{
  ℕ, zero, suc, ◌≤◌, ◌<◌, ◌≡◌, refl, ap, ◌∙◌, min, max, String, Bool, true, false, ◌||◌, some, List,
  [], ◌∷◌, map, arith, inl, inr, Bool-cases, if◌then◌else◌, ◌==◌, length, take, update_rows, select,
  order_by, All, All-select, All-take, All-order_by, insert_by, count,
}
use sardoba_app_server.Prelude.Selection.{length-select, length-order_by, length-take}
use sardoba_app_server.SyncJobs.{IikoSyncJob, JobTable, running}
use sardoba_app_server.SyncJobs.Claims.{
  claimable, due_first, due_batch, holds_id, claim_job, in_batch, claim_due_jobs,
}
use sardoba_app_server.SyncJobs.Valid.{IsValid, IdsRise}

holds_id-take :
    (n k : ℕ) (js : List IikoSyncJob) → holds_id n (take k js) ≡ true → holds_id n js ≡ true
unfolding holds_id
holds_id-take n zero js h = cc
holds_id-take n (suc k) [] h = h
holds_id-take n (suc k) (j ∷ js) h = ground (arith, holds_id-take n k js)

holds_id-insert_by :
    (before : IikoSyncJob → IikoSyncJob → Bool) (n : ℕ) (j : IikoSyncJob) (js : List IikoSyncJob)
    → holds_id n (insert_by before j js) ≡ (j.id == n || holds_id n js)
unfolding holds_id insert_by
holds_id-insert_by before n j [] = refl
holds_id-insert_by before n j (k ∷ js) = ground (arith, holds_id-insert_by before n j js)

holds_id-order_by :
    (before : IikoSyncJob → IikoSyncJob → Bool) (n : ℕ) (js : List IikoSyncJob)
    → holds_id n (order_by before js) ≡ holds_id n js
unfolding holds_id order_by
holds_id-order_by before n [] = refl
holds_id-order_by before n (j ∷ js) =
    ground
      (arith, holds_id-insert_by before n j (order_by before js), holds_id-order_by before n js)

-- No id below the first one of a rising table is selected from it.
holds_id-select_below :
    (p : IikoSyncJob → Bool) (n lo : ℕ) (js : List IikoSyncJob) (hi : ℕ)
    → n < lo
    → IdsRise lo js hi
    → holds_id n (select p js) ≡ false
unfolding holds_id select
holds_id-select_below p n lo [] hi h ids = refl
holds_id-select_below p n lo (j ∷ js) hi h ids =
    ground (arith, holds_id-select_below p n (suc j.id) js hi)

-- One more selected row in front does not matter to rows with higher ids.
selected_front :
    (p : IikoSyncJob → Bool) (sel : List IikoSyncJob) (j : IikoSyncJob) (lo : ℕ)
    (js : List IikoSyncJob) (hi : ℕ)
    → j.id < lo
    → IdsRise lo js hi
    → All (λ k. holds_id k.id sel ≡ true → p k ≡ true) js
    → All (λ k. holds_id k.id (if p j then j ∷ sel else sel) ≡ true → p k ≡ true) js
unfolding holds_id
selected_front p sel j lo [] hi h ids all = tt
selected_front p sel j lo (k ∷ js) hi h ids all =
    (λ e. ground (arith, all.0), selected_front p sel j (suc k.id) js hi (omega arith) ids.1 all.1)

-- A row whose id is selected is itself selected, since ids are unique.
selected_row :
    (p : IikoSyncJob → Bool) (lo : ℕ) (js : List IikoSyncJob) (hi : ℕ)
    → IdsRise lo js hi
    → All (λ j. holds_id j.id (select p js) ≡ true → p j ≡ true) js
unfolding select
selected_row p lo [] hi ids = tt
selected_row p lo (j ∷ js) hi ids = (
  λ e. unfold holds_id in ground (arith, holds_id-select_below p j.id (suc j.id) js hi),
  selected_front p (select p js) j (suc j.id) js hi (omega arith) ids.1
      (selected_row p (suc j.id) js hi ids.1),
)

holds_id-due_batch :
    (row_locked : ℕ → Bool) (limit now n : ℕ) (js : List IikoSyncJob)
    → holds_id n (due_batch row_locked limit now js) ≡ true
    → holds_id n (select (claimable row_locked now) js) ≡ true
unfolding due_batch
holds_id-due_batch row_locked limit now n js h =
    rw (holds_id-order_by due_first n (select (claimable row_locked now) js)) at
      (holds_id-take n (max 1 limit) _ h)

length-due_batch :
    (row_locked : ℕ → Bool) (limit now : ℕ) (js : List IikoSyncJob)
    → length (due_batch row_locked limit now js)
      ≡ min (max 1 limit) (count (claimable row_locked now) js)
unfolding due_batch
length-due_batch row_locked limit now js =
    let selected = select (claimable row_locked now) js in
    omega (
      arith,
      length-take (max 1 limit) (order_by due_first selected),
      length-order_by due_first selected,
      length-select (claimable row_locked now) js,
    )

unclaimed_row :
    (row_locked : ℕ → Bool) (now : ℕ) (batch : List IikoSyncJob) (j : IikoSyncJob)
    → (holds_id j.id batch ≡ true → claimable row_locked now j ≡ true)
    → in_batch row_locked now batch j ≡ false
    → holds_id j.id batch ≡ false
unfolding in_batch
unclaimed_row row_locked now batch j sel e = elim (Bool-cases (holds_id j.id batch)) [
  | inl h ↦ let c = sel h in ground arith
  | inr h ↦ h
]

-- After a claim, no row that can still be claimed has the id of a claimed one.
claimed_row :
    (row_locked then_locked : ℕ → Bool) (w : String) (now later : ℕ) (batch : List IikoSyncJob)
    (j : IikoSyncJob)
    → (holds_id j.id batch ≡ true → claimable row_locked now j ≡ true)
    → let k = (if in_batch row_locked now batch j then claim_job w now j else j) in
      (claimable then_locked later k ≡ true → holds_id k.id batch ≡ false)
claimed_row row_locked then_locked w now later batch j sel =
    elim (Bool-cases (in_batch row_locked now batch j)) [
      | inl e ↦ rw e (λ h. unfold claimable claim_job in ground arith)
      | inr e ↦ rw e (λ h. unclaimed_row row_locked now batch j sel e)
    ]

claimed_rows :
    (row_locked then_locked : ℕ → Bool) (w : String) (now later : ℕ) (batch js : List IikoSyncJob)
    → All (λ j. holds_id j.id batch ≡ true → claimable row_locked now j ≡ true) js
    → All
        (λ k. claimable then_locked later k ≡ true → holds_id k.id batch ≡ false)
        (update_rows (in_batch row_locked now batch) (claim_job w now) js)
unfolding update_rows
claimed_rows row_locked then_locked w now later batch [] all = tt
claimed_rows row_locked then_locked w now later batch (j ∷ js) all = (
  claimed_row row_locked then_locked w now later batch j all.0,
  claimed_rows row_locked then_locked w now later batch js all.1,
)

selected_in_batch :
    (row_locked : ℕ → Bool) (limit now : ℕ) (js ks : List IikoSyncJob)
    → All
        (λ j.
          holds_id j.id (select (claimable row_locked now) ks) ≡ true
          → claimable row_locked now j ≡ true)
        js
    → All
        (λ j.
          holds_id j.id (due_batch row_locked limit now ks) ≡ true
          → claimable row_locked now j ≡ true)
        js
selected_in_batch row_locked limit now [] ks all = tt
selected_in_batch row_locked limit now (j ∷ js) ks all = (
  λ e. all.0 (holds_id-due_batch row_locked limit now j.id ks e),
  selected_in_batch row_locked limit now js ks all.1,
)

All-due_batch :
    (P : IikoSyncJob → Type 0) (row_locked : ℕ → Bool) (limit now : ℕ) (js : List IikoSyncJob)
    → All (λ j. claimable row_locked now j ≡ true → P j) js
    → All P (due_batch row_locked limit now js)
unfolding due_batch
All-due_batch P row_locked limit now js h =
    All-take P (max 1 limit) _
      (All-order_by P due_first _ (All-select P (claimable row_locked now) js h))

holds_id-claimed :
    (w : String) (now n : ℕ) (js : List IikoSyncJob)
    → holds_id n (map (claim_job w now) js) ≡ holds_id n js
unfolding holds_id claim_job
holds_id-claimed w now n [] = refl
holds_id-claimed w now n (j ∷ js) = rw (holds_id-claimed w now n js)

All-holds_claimed :
    (w v : String) (now later : ℕ) (batch js : List IikoSyncJob)
    → All (λ k. holds_id k.id batch ≡ false) js
    → All (λ k. holds_id k.id (map (claim_job w now) batch) ≡ false) (map (claim_job v later) js)
unfolding claim_job
All-holds_claimed w v now later batch [] h = tt
All-holds_claimed w v now later batch (j ∷ js) h =
    (holds_id-claimed w now j.id batch ∙ h.0, All-holds_claimed w v now later batch js h.1)

-- On a well-formed table two claims that follow one another, by any workers, at any times and with
-- any rows locked meanwhile, never hand out the same job: no job that the second one returns has the
-- id of one that the first returned.
pub claim_exclusive :
    (t : JobTable) (row_locked then_locked : ℕ → Bool) (w v : String) (limit more now later : ℕ)
    → IsValid t
    → let (t', taken) = claim_due_jobs row_locked w limit now t in
      All (λ j. holds_id j.id taken ≡ false) (claim_due_jobs then_locked v more later t').1
unfolding claim_due_jobs
claim_exclusive t row_locked then_locked w v limit more now later valid =
    let batch = due_batch row_locked limit now t.rows in
    All-holds_claimed w v now later batch _ (
      All-due_batch (λ k. holds_id k.id batch ≡ false) then_locked more later _
        (claimed_rows row_locked then_locked w now later batch t.rows (
          selected_in_batch row_locked limit now t.rows t.rows
            (selected_row (claimable row_locked now) 1 t.rows t.next_id valid.ids))))

IsClaim-due_batch :
    (row_locked : ℕ → Bool) (limit now : ℕ) (js ks : List IikoSyncJob)
    → All (λ j. claimable row_locked now j ≡ true → claimable row_locked now j ≡ true) js
IsClaim-due_batch row_locked limit now [] ks = tt
IsClaim-due_batch row_locked limit now (j ∷ js) ks =
    (λ e. e, IsClaim-due_batch row_locked limit now js ks)

-- What a claim returns.
abbrev pub IsClaim : (ℕ → Bool) → String → ℕ → IikoSyncJob → Type 0
IsClaim row_locked w now j =
    (j.status ≡ running)
    × (j.lock_owner ≡ some w)
    × (j.locked_at ≡ some now)
    × (j.next_retry_at ≤ now)
    × (j.attempt_count < j.max_attempts)
    × (row_locked j.id ≡ false)

All-IsClaim :
    (row_locked : ℕ → Bool) (w : String) (now : ℕ) (js : List IikoSyncJob)
    → All (λ j. claimable row_locked now j ≡ true) js
    → All (IsClaim row_locked w now) (map (claim_job w now) js)
unfolding claim_job claimable
All-IsClaim row_locked w now [] h = tt
All-IsClaim row_locked w now (j ∷ js) h = (ground (arith, h.0), All-IsClaim row_locked w now js h.1)

length-map_jobs :
    (f : IikoSyncJob → IikoSyncJob) (js : List IikoSyncJob) → length (map f js) ≡ length js
length-map_jobs f [] = refl
length-map_jobs f (j ∷ js) = ap suc (length-map_jobs f js)

-- A claim takes as many jobs as are due, unlocked and have attempts left, up to the limit (at least
-- one); each is now running, locked by the worker since now, was due, and has an attempt left.
pub claim_due_jobs_lem :
    (t : JobTable) (row_locked : ℕ → Bool) (w : String) (limit now : ℕ)
    → let taken = (claim_due_jobs row_locked w limit now t).1 in
      (length taken ≡ min (max 1 limit) (count (claimable row_locked now) t.rows))
      × All (IsClaim row_locked w now) taken
unfolding claim_due_jobs
claim_due_jobs_lem t row_locked w limit now = (
  length-map_jobs (claim_job w now) (due_batch row_locked limit now t.rows)
      ∙ length-due_batch row_locked limit now t.rows,
  All-IsClaim row_locked w now _ (
      All-due_batch (λ j. claimable row_locked now j ≡ true) row_locked limit now t.rows
        (IsClaim-due_batch row_locked limit now t.rows t.rows)),
)
