-- ===== src/SyncJobs/Finality.antt =====
-- A job that has succeeded is never touched again, whatever the service does afterwards.
use sardoba_app_server.Prelude.{ℕ, zero, suc, ◌≡◌, some, List, [], ◌∷◌, arith, get_elem?}
use sardoba_app_server.SyncJobs.{IikoSyncJob, JobTable, success}
use sardoba_app_server.SyncJobs.System.{JobCall, step, run}
use sardoba_app_server.SyncJobs.Lifecycle.{Moves, Tracks, step-Tracks}

Moves-success : (j k : IikoSyncJob) → j.status ≡ success → Moves j k → k ≡ j
Moves-success j k h m = ground arith

Tracks-success :
    (js ks : List IikoSyncJob) (i : ℕ) (j : IikoSyncJob)
    → Tracks js ks
    → get_elem? js i ≡ some j
    → j.status ≡ success
    → get_elem? ks i ≡ some j
Tracks-success [] ks i j t e h = cc
Tracks-success (x ∷ js) [] i j t e h = absurd t
Tracks-success (x ∷ js) (k ∷ ks) zero j t e h = ground (arith, Moves-success x k, t.0)
Tracks-success (x ∷ js) (k ∷ ks) (suc i) j t e h = Tracks-success js ks i j t.1 e h

-- Once the row at some position of the table has succeeded, it stands there unchanged after every
-- further history of operations.
pub run-success :
    (t : JobTable) (cs : List JobCall) (i : ℕ) (j : IikoSyncJob)
    → get_elem? t.rows i ≡ some j
    → j.status ≡ success
    → get_elem? (run t cs).rows i ≡ some j
unfolding run
run-success t [] i j e h = e
run-success t (c ∷ cs) i j e h =
    run-success (step t c) cs i j (Tracks-success t.rows (step t c).rows i j (step-Tracks t c) e h)
      h
