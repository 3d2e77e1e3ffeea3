-- ===== src/SyncJobs/Coalesce.antt =====
-- `_enqueue` of app/services/iiko_sync_job_service.py keeps one waiting job for each request.
use sardoba_app_server.Prelude.{Bool}
use sardoba_app_server.Prelude.Dict.{Dict}
use sardoba_app_server.Json.{Json}
use sardoba_app_server.SyncJobs.{IikoSyncJob, Request, is_candidate}

candidate : Request → IikoSyncJob → Bool
candidate r = is_candidate r.operation r.user_id r.phone
