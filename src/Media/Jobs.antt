-- ===== src/Media/Jobs.antt =====
-- The media jobs of src/arduino_component_kb/media/repository.py, and the failed attempts of the two
-- workers, src/arduino_component_kb/media/processor.py for images and
-- src/arduino_component_kb/media/video_processor.py for videos. A method that takes a job and its asset changes both
-- rows; the pair of them is `Work`.
use arduino_component_knowle.Prelude.{
  ℕ, String, Bool, true, false, ◌+◌, ◌-◌, ◌*◌, ◌^◌, ◌&&◌, Option, none, some, ltb, leb, max, min,
  if◌then◌else◌, List, ◌++◌,
}
use arduino_component_knowle.Exec.{Result, ok, err}
use arduino_component_knowle.Auth.Domain.{Time}
use arduino_component_knowle.Catalog.Schema.{MediaVariant}
use arduino_component_knowle.Dispatch.Writes.{fail_media_job, reject_asset}
use arduino_component_knowle.Dispatch.Schema.{
  is_active_job, MediaJob, MediaAsset, JobStatus, job_queued, job_running, job_retrying,
  job_succeeded, job_failed, asset_processing, asset_ready, asset_rejected,
}

-- One job, its asset and the variants of the asset.
pub record Work : Type 0 where
  pub job : MediaJob
  pub asset : MediaAsset
  pub variants : List MediaVariant

-- `ValueError`, with its text
pub data RetryError : Type 0 where
  job_not_retryable job_media_cleaned : RetryError

abbrev pub is_finished : JobStatus → Bool
is_finished job_succeeded = true
is_finished job_failed = true
is_finished _ = false

abbrev pub is_retrying : JobStatus → Bool
is_retrying job_retrying = true
is_retrying _ = false

abbrev pub is_running : JobStatus → Bool
is_running job_running = true
is_running _ = false

abbrev pub is_later : Time → Option Time → Bool
is_later now none = false
is_later now (some t) = ltb now t

-- `heartbeat_at or started_at`
abbrev pub lease_reference : Option Time → Option Time → Option Time
lease_reference none started = started
lease_reference (some t) started = some t

-- `lease_reference > now - lease`
abbrev pub holds_lease : Time → ℕ → Option Time → Bool
holds_lease now lease none = false
holds_lease now lease (some t) = ltb now (t + lease)

-- `status == RETRYING and next_retry_at > now`
abbrev pub waits : Time → MediaJob → Bool
waits now job = is_retrying job.status && is_later now job.next_retry_at

abbrev pub is_leased : Time → ℕ → MediaJob → Bool
is_leased now lease job =
    is_running job.status && holds_lease now lease (lease_reference job.heartbeat_at job.started_at)

unfoldable pub exhausted : Time → Work → Work
exhausted now work = record work {
  job = record work.job {
    status = job_failed;
    phase = "failed";
    error_code = some "media_attempts_exhausted";
    finished_at = some now;
    updated_at = now;
  };
  asset = record work.asset {
    status = asset_rejected;
    failure_code = some "media_attempts_exhausted";
    updated_at = now;
  };
}

unfoldable pub taken : Time → Work → Work
taken now work = record work {
  job = record work.job {
    status = job_running;
    attempts = work.job.attempts + 1;
    phase = "starting";
    progress_percent = max work.job.progress_percent 1;
    started_at = some now;
    heartbeat_at = some now;
    next_retry_at = none;
    updated_at = now;
  };
}

-- `claim_job`, on the locked rows: what the caller gets, and the rows. Times and leases are in
-- microseconds.
unfoldable pub claim_job : Time → ℕ → Work → Option Work × Work
unfolding exhausted taken
claim_job now lease work =
    let held = taken now work in
    if is_finished work.job.status
    then (none, work)
    else if waits now work.job
    then (none, work)
    else if is_leased now lease work.job
    then (none, work)
    else if leb work.job.max_attempts work.job.attempts
    then (none, exhausted now work)
    else (some held, held)

unfoldable pub update_job_progress : String → ℕ → Time → MediaJob → MediaJob
update_job_progress phase percent now job = record job {
  phase = phase;
  progress_percent = max job.progress_percent percent;
  heartbeat_at = some now;
  updated_at = now;
}

abbrev pub requeued : Time → Work → Work
requeued now work = record work {
  job = record work.job {
    status = job_queued;
    phase = "queued";
    progress_percent = 0;
    attempts = 0;
    manual_retry_count = work.job.manual_retry_count + 1;
    error_code = none;
    started_at = none;
    finished_at = none;
    heartbeat_at = none;
    next_retry_at = none;
    updated_at = now;
  };
  asset = record work.asset { status = asset_processing; failure_code = none; updated_at = now };
}

abbrev pub retry_cleaned : Time → Work → Option Time → Result RetryError (Bool × Work)
retry_cleaned now work (some t) = err job_media_cleaned
retry_cleaned now work none = ok (true, requeued now work)

abbrev pub retry_status : Time → Work → JobStatus → Result RetryError (Bool × Work)
retry_status now work job_queued = ok (false, work)
retry_status now work job_failed = retry_cleaned now work work.asset.storage_cleaned_at
retry_status now work _ = err job_not_retryable

-- `prepare_manual_retry`
unfoldable pub prepare_manual_retry : Time → Work → Result RetryError (Bool × Work)
prepare_manual_retry now work = retry_status now work work.job.status

-- The keyword arguments of `complete_job`.
pub record Processed : Type 0 where
  pub detected_mime : String
  pub size_bytes : ℕ
  pub sha256 : String
  pub phash : String
  pub width : ℕ
  pub height : ℕ
  pub variants : List MediaVariant

unfoldable pub complete_job : Processed → Time → Work → Work
complete_job image now work = record work {
  job = record work.job {
    status = job_succeeded;
    phase = "completed";
    progress_percent = 100;
    finished_at = some now;
    heartbeat_at = some now;
    next_retry_at = none;
    updated_at = now;
    error_code = none;
  };
  asset = record work.asset {
    status = asset_ready;
    detected_mime = some image.detected_mime;
    size_bytes = some image.size_bytes;
    sha256 = some image.sha256;
    phash = some image.phash;
    width = some image.width;
    height = some image.height;
    failure_code = none;
    updated_at = now;
  };
  variants = work.variants ++ image.variants;
}

-- The keyword arguments of `complete_video_job`.
pub record ProcessedVideo : Type 0 where
  pub detected_mime : String
  pub size_bytes : ℕ
  pub sha256 : String
  pub width : ℕ
  pub height : ℕ
  pub duration_ms : ℕ
  pub video_codec : String
  pub audio_codec : Option String
  pub frame_rate : String
  pub variants : List MediaVariant

unfoldable pub complete_video_job : ProcessedVideo → Time → Work → Work
complete_video_job clip now work = record work {
  job = record work.job {
    status = job_succeeded;
    phase = "completed";
    progress_percent = 100;
    finished_at = some now;
    heartbeat_at = some now;
    next_retry_at = none;
    updated_at = now;
    error_code = none;
  };
  asset = record work.asset {
    status = asset_ready;
    detected_mime = some clip.detected_mime;
    size_bytes = some clip.size_bytes;
    sha256 = some clip.sha256;
    width = some clip.width;
    height = some clip.height;
    duration_ms = some clip.duration_ms;
    video_codec = some clip.video_codec;
    audio_codec = clip.audio_codec;
    frame_rate = some clip.frame_rate;
    failure_code = none;
    updated_at = now;
  };
  variants = work.variants ++ clip.variants;
}

unfoldable pub mark_enqueued : Time → MediaJob → MediaJob
mark_enqueued now job = record job { last_enqueued_at = some now; updated_at = now }

unfoldable pub reject_job : String → Time → Work → Work
reject_job code now work = record work {
  job = record work.job {
    status = job_failed;
    phase = "failed";
    error_code = some code;
    finished_at = some now;
    heartbeat_at = some now;
    next_retry_at = none;
    updated_at = now;
  };
  asset = record work.asset { status = asset_rejected; failure_code = some code; updated_at = now };
}

-- `record_storage_failure`, `terminal` first
unfoldable pub record_storage_failure : Bool → Time → String → String → ℕ → Work → Work
record_storage_failure true now transient_code terminal_code delay work = record work {
  job = record work.job {
    status = job_failed;
    phase = "failed";
    error_code = some terminal_code;
    updated_at = now;
    heartbeat_at = some now;
    next_retry_at = none;
    finished_at = some now;
  };
  asset = record work.asset {
    status = asset_rejected;
    failure_code = some terminal_code;
    updated_at = now;
  };
}
record_storage_failure false now transient_code terminal_code delay work = record work {
  job = record work.job {
    status = job_retrying;
    phase = "retrying";
    error_code = some transient_code;
    updated_at = now;
    heartbeat_at = some now;
    next_retry_at = some (now + delay);
  };
}

abbrev pub is_terminal : MediaJob → Bool
is_terminal job = leb job.max_attempts job.attempts

-- The delay in seconds of a failed image. A worker reads it of a job that it has claimed, so
-- `attempts` is positive and the subtraction is that of the code.
unfoldable pub delay_seconds : MediaJob → ℕ
delay_seconds job = min 60 (5 * 2 ^ (job.attempts - 1))

abbrev pub microseconds : ℕ
microseconds = 1000000

-- What the failure branch of `process_media_job`, the image worker, writes to the two rows, beside
-- its audit event.
unfoldable pub fail_attempt : Time → Work → Work
unfolding record_storage_failure delay_seconds
fail_attempt now work =
    record_storage_failure (is_terminal work.job) now "media_storage_transient"
      "media_storage_failed" (delay_seconds work.job * microseconds) work

-- `_retry_delay_seconds`, the delay of a failed video
unfoldable pub video_delay_seconds : MediaJob → ℕ
video_delay_seconds job = min 120 (15 * 2 ^ (job.attempts - 1))

-- `_transient_failure`, of the video worker, beside its audit event.
unfoldable pub fail_video_attempt : Time → Work → Work
unfolding record_storage_failure video_delay_seconds
fail_video_attempt now work =
    record_storage_failure (is_terminal work.job) now "media_processing_transient"
      "media_processing_failed" (video_delay_seconds work.job * microseconds) work

-- What `_fail_media` of src/arduino_component_kb/dispatch/repository.py, which gives up delivering
-- the job, writes to the two rows.
unfoldable pub give_up_delivery : Time → Work → Work
unfolding fail_media_job
give_up_delivery now work = record work {
  job = fail_media_job now work.job;
  asset = if is_active_job work.job.status then reject_asset now work.asset else work.asset;
}
