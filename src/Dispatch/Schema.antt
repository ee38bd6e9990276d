-- ===== src/Dispatch/Schema.antt =====
-- The rows of src/arduino_component_kb/dispatch/models.py, and of the job tables of
-- imports/models.py, media/models.py and legacy/models.py the columns that dispatch reads or writes.
use arduino_component_knowle.Prelude.{ℕ, String, Bool, true, false, Option, List}
use arduino_component_knowle.Auth.Domain.{Time, Uuid}

pub data JobType : Type 0 where
  import_type : JobType
  media_type : JobType
  legacy_type : JobType

pub data QueueName : Type 0 where
  imports_queue : QueueName
  images_queue : QueueName
  videos_queue : QueueName
  legacy_queue : QueueName

pub data DispatchStatus : Type 0 where
  pending : DispatchStatus
  delivered : DispatchStatus
  failed : DispatchStatus

pub record JobDispatch : Type 0 where
  pub id : Uuid
  pub job_type : JobType
  pub job_id : Uuid
  pub queue_name : QueueName
  pub status : DispatchStatus
  pub attempts : ℕ
  pub max_attempts : ℕ
  pub next_attempt_at : Time
  pub last_attempt_at : Option Time
  pub delivered_at : Option Time
  pub error_code : Option String
  pub created_at : Time
  pub updated_at : Time

-- `status` of `ImportJob` and of `MediaJob`, which cannot be cancelled
pub data JobStatus : Type 0 where
  job_queued : JobStatus
  job_running : JobStatus
  job_retrying : JobStatus
  job_succeeded : JobStatus
  job_failed : JobStatus
  job_cancelled : JobStatus

-- `status in {"queued", "running", "retrying"}`
abbrev pub is_active_job : JobStatus → Bool
is_active_job job_queued = true
is_active_job job_running = true
is_active_job job_retrying = true
is_active_job _ = false

pub record ImportJob : Type 0 where
  pub id : Uuid
  pub status : JobStatus
  pub error_code : Option String
  pub next_retry_at : Option Time
  pub finished_at : Option Time
  pub heartbeat_at : Option Time
  pub updated_at : Time

pub record MediaJob : Type 0 where
  pub id : Uuid
  pub asset_id : Uuid
  pub status : JobStatus
  pub attempts : ℕ
  pub max_attempts : ℕ
  pub manual_retry_count : ℕ
  pub queue_name : QueueName
  pub phase : String
  pub progress_percent : ℕ
  pub error_code : Option String
  pub created_at : Time
  pub started_at : Option Time
  pub heartbeat_at : Option Time
  pub next_retry_at : Option Time
  pub last_enqueued_at : Option Time
  pub finished_at : Option Time
  pub updated_at : Time

pub data AssetStatus : Type 0 where
  asset_pending : AssetStatus
  asset_processing : AssetStatus
  asset_ready : AssetStatus
  asset_rejected : AssetStatus

pub data MediaKind : Type 0 where
  image video : MediaKind

pub record MediaAsset : Type 0 where
  pub id : Uuid
  pub owner_user_id : Uuid
  pub component_id : Option Uuid
  pub kind : MediaKind
  pub purpose : String
  pub alt_text : String
  pub caption : Option String
  pub display_order : ℕ
  pub is_primary : Bool
  pub status : AssetStatus
  pub declared_size_bytes : ℕ
  pub detected_mime : Option String
  pub size_bytes : Option ℕ
  pub sha256 : Option String
  pub phash : Option String
  pub width : Option ℕ
  pub height : Option ℕ
  pub duration_ms : Option ℕ
  pub video_codec : Option String
  pub audio_codec : Option String
  -- the text of the number
  pub frame_rate : Option String
  pub failure_code : Option String
  pub upload_expires_at : Time
  pub created_at : Time
  pub updated_at : Time
  pub storage_cleaned_at : Option Time

pub data BundleStatus : Type 0 where
  uploading : BundleStatus
  uploaded : BundleStatus
  analyzing : BundleStatus
  ready : BundleStatus
  applying : BundleStatus
  completed : BundleStatus
  bundle_failed : BundleStatus
  bundle_cancelled : BundleStatus

-- `status in {"analyzing", "applying"}`
abbrev pub is_working : BundleStatus → Bool
is_working analyzing = true
is_working applying = true
is_working _ = false

pub record LegacyBundle : Type 0 where
  pub id : Uuid
  pub status : BundleStatus
  pub error_code : Option String
  pub updated_at : Time

-- The tables.
pub record Jobs : Type 0 where
  pub dispatches : List JobDispatch
  pub import_jobs : List ImportJob
  pub media_jobs : List MediaJob
  pub media_assets : List MediaAsset
  pub legacy_bundles : List LegacyBundle

-- A session reads what it has flushed (`autoflush=False` in db.py), and its writes are on the
-- objects until the next flush or the commit.
pub record Session : Type 0 where
  pub stored : Jobs
  pub current : Jobs

abbrev pub open_session : Jobs → Session
open_session db = record { stored = db; current = db }

abbrev pub flush : Session → Session
flush session = open_session session.current
