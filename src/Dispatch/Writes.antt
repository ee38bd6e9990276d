-- ===== src/Dispatch/Writes.antt =====
-- The writes of src/arduino_component_kb/dispatch/repository.py to dispatches and their jobs:
-- `_make_pending`, `_fail_import` and `_fail_media`.
use arduino_component_knowle.Prelude.{
  Bool, true, false, none, some, update_where, ◌==◌, if◌then◌else◌,
}
use arduino_component_knowle.Auth.Domain.{Time, Uuid}
use arduino_component_knowle.Dispatch.Schema.{
  JobType, import_type, media_type, legacy_type, DispatchStatus, pending, delivered, failed,
  JobDispatch, job_failed, is_active_job, ImportJob, MediaJob, asset_rejected, MediaAsset,
  bundle_failed, LegacyBundle, Jobs,
}

abbrev pub is_pending : DispatchStatus → Bool
is_pending pending = true
is_pending _ = false

abbrev pub is_delivered : DispatchStatus → Bool
is_delivered delivered = true
is_delivered _ = false

abbrev pub is_import : JobType → Bool
is_import import_type = true
is_import _ = false

abbrev pub is_media : JobType → Bool
is_media media_type = true
is_media _ = false

abbrev pub is_legacy : JobType → Bool
is_legacy legacy_type = true
is_legacy _ = false

abbrev pub has_dispatch_id : Uuid → JobDispatch → Bool
has_dispatch_id id dispatch = dispatch.id == id

abbrev pub has_import_id : Uuid → ImportJob → Bool
has_import_id id job = job.id == id

abbrev pub has_media_id : Uuid → MediaJob → Bool
has_media_id id job = job.id == id

abbrev pub has_asset_id : Uuid → MediaAsset → Bool
has_asset_id id asset = asset.id == id

abbrev pub has_bundle_id : Uuid → LegacyBundle → Bool
has_bundle_id id bundle = bundle.id == id

-- Writes to one row.
abbrev pub set_dispatch : Uuid → (JobDispatch → JobDispatch) → Jobs → Jobs
set_dispatch id f db = record db { dispatches = update_where (has_dispatch_id id) f db.dispatches }

abbrev pub set_import : Uuid → (ImportJob → ImportJob) → Jobs → Jobs
set_import id f db = record db { import_jobs = update_where (has_import_id id) f db.import_jobs }

abbrev pub set_media : Uuid → (MediaJob → MediaJob) → Jobs → Jobs
set_media id f db = record db { media_jobs = update_where (has_media_id id) f db.media_jobs }

abbrev pub set_asset : Uuid → (MediaAsset → MediaAsset) → Jobs → Jobs
set_asset id f db = record db { media_assets = update_where (has_asset_id id) f db.media_assets }

abbrev pub set_bundle : Uuid → (LegacyBundle → LegacyBundle) → Jobs → Jobs
set_bundle id f db = record db {
  legacy_bundles = update_where (has_bundle_id id) f db.legacy_bundles;
}

-- `_make_pending`
unfoldable pub make_pending : Time → JobDispatch → JobDispatch
make_pending now dispatch = record dispatch {
  status = pending;
  next_attempt_at = now;
  error_code = none;
  updated_at = now;
}

-- What `_fail_import` and `_fail_media` write to the dispatch.
unfoldable pub exhaust : Time → JobDispatch → JobDispatch
exhaust now dispatch = record dispatch {
  status = failed;
  error_code = some "dispatch_attempts_exhausted";
  next_attempt_at = now;
  updated_at = now;
}

-- What the branch for legacy bundles writes to the dispatch.
unfoldable pub exhaust_legacy : JobDispatch → JobDispatch
exhaust_legacy dispatch = record dispatch {
  status = failed;
  error_code = some "dispatch_attempts_exhausted";
}

unfoldable pub fail_import_job : Time → ImportJob → ImportJob
fail_import_job now job =
    if is_active_job job.status
    then record job {
      status = job_failed;
      error_code = some "import_dispatch_exhausted";
      next_retry_at = none;
      finished_at = some now;
      heartbeat_at = some now;
      updated_at = now;
    }
    else job

unfoldable pub fail_media_job : Time → MediaJob → MediaJob
fail_media_job now job =
    if is_active_job job.status
    then record job {
      status = job_failed;
      phase = "failed";
      error_code = some "media_dispatch_exhausted";
      next_retry_at = none;
      finished_at = some now;
      heartbeat_at = some now;
      updated_at = now;
    }
    else job

abbrev pub reject_asset : Time → MediaAsset → MediaAsset
reject_asset now asset = record asset {
  status = asset_rejected;
  failure_code = some "media_dispatch_exhausted";
  updated_at = now;
}

unfoldable pub fail_bundle : LegacyBundle → LegacyBundle
fail_bundle bundle = record bundle {
  status = bundle_failed;
  error_code = some "legacy_dispatch_exhausted";
}

-- `_fail_import`
unfoldable pub fail_import : Uuid → ImportJob → Time → Jobs → Jobs
unfolding exhaust fail_import_job
fail_import dispatch_id job now db =
    set_import job.id (fail_import_job now) (set_dispatch dispatch_id (exhaust now) db)

-- `_fail_media`; the asset is rejected only with a job that was active
unfoldable pub fail_media : Uuid → MediaJob → Time → Jobs → Jobs
unfolding exhaust fail_media_job
fail_media dispatch_id job now db =
    let rejected =
      if is_active_job job.status then set_asset job.asset_id (reject_asset now) db else db in
    set_media job.id (fail_media_job now) (set_dispatch dispatch_id (exhaust now) rejected)
