-- ===== src/Dispatch/Repository.antt =====
-- `DispatchRepository` of src/arduino_component_kb/dispatch/repository.py: new dispatches, claims of
-- due ones, and the outcome of their publication.
use arduino_component_knowle.Prelude.{
  take, order_by, ℕ, Bool, true, false, ◌+◌, ◌-◌, ◌*◌, ◌^◌, min, ◌&&◌, Option, none, some, List, [],
  ◌∷◌, ◌++◌, find, filter_rows, map, ltb, leb, ◌==◌, if◌then◌else◌,
}
use arduino_component_knowle.Auth.Domain.{Time, Uuid}
use arduino_component_knowle.Auth.Throttle.{seconds}
use arduino_component_knowle.Dispatch.Schema.{
  JobType, import_type, media_type, legacy_type, QueueName, pending, delivered, JobDispatch,
  is_active_job, ImportJob, MediaJob, MediaAsset, is_working, LegacyBundle, Jobs, Session,
}
use arduino_component_knowle.Dispatch.Queries.{earlier}
use arduino_component_knowle.Dispatch.Writes.{
  is_pending, is_media, has_dispatch_id, has_import_id, has_media_id, has_bundle_id, set_dispatch,
  set_media, set_bundle, exhaust_legacy, fail_import, fail_media, fail_bundle,
}
use arduino_component_knowle.Dispatch.Recovery.{is_exhausted, for_each, write, find_media}

-- The keyword arguments of `add` and `reset`, with the identifier that `uuid4` draws.
pub record DispatchCall : Type 0 where
  pub id : Uuid
  pub job_type : JobType
  pub job_id : Uuid
  pub queue_name : QueueName
  pub max_attempts : ℕ
  pub now : Time

-- The row that `add` makes.
abbrev pub new_dispatch : DispatchCall → JobDispatch
new_dispatch call = record {
  id = call.id;
  job_type = call.job_type;
  job_id = call.job_id;
  queue_name = call.queue_name;
  status = pending;
  attempts = 0;
  max_attempts = call.max_attempts;
  next_attempt_at = call.now;
  last_attempt_at = none;
  delivered_at = none;
  error_code = none;
  created_at = call.now;
  updated_at = call.now;
}

unfoldable pub add_dispatch : DispatchCall → Jobs → Jobs
add_dispatch call db = record db { dispatches = db.dispatches ++ new_dispatch call ∷ [] }

abbrev pub same_type : JobType → JobType → Bool
same_type import_type import_type = true
same_type media_type media_type = true
same_type legacy_type legacy_type = true
same_type _ _ = false

abbrev pub is_for : DispatchCall → JobDispatch → Bool
is_for call dispatch = same_type dispatch.job_type call.job_type && dispatch.job_id == call.job_id

abbrev pub restart : DispatchCall → JobDispatch → JobDispatch
restart call dispatch = record dispatch {
  queue_name = call.queue_name;
  status = pending;
  attempts = 0;
  max_attempts = call.max_attempts;
  next_attempt_at = call.now;
  last_attempt_at = none;
  delivered_at = none;
  error_code = none;
  updated_at = call.now;
}

unfoldable pub reset_dispatch : DispatchCall → Jobs → Jobs
unfolding add_dispatch
reset_dispatch call db = elim (find (is_for call) db.dispatches) [
  | none ↦ add_dispatch call db
  | some dispatch ↦ set_dispatch dispatch.id (restart call) db
]

pub record DispatchIntent : Type 0 where
  pub id : Uuid
  pub job_type : JobType
  pub job_id : Uuid
  pub queue_name : QueueName
  pub attempt : ℕ

abbrev pub is_claimable : Time → JobDispatch → Bool
is_claimable now dispatch =
    is_pending dispatch.status
    && leb dispatch.next_attempt_at now
    && ltb dispatch.attempts dispatch.max_attempts

abbrev pub due_before : JobDispatch → JobDispatch → Bool
due_before a b = earlier a.next_attempt_at a.id b.next_attempt_at b.id

unfoldable pub due_dispatches : Time → ℕ → Jobs → List JobDispatch
due_dispatches now limit db =
    take limit (order_by due_before (filter_rows (is_claimable now) db.dispatches))

unfoldable pub claim : Time → ℕ → JobDispatch → JobDispatch
claim now lease dispatch = record dispatch {
  attempts = dispatch.attempts + 1;
  last_attempt_at = some now;
  next_attempt_at = now + seconds lease;
  updated_at = now;
}

abbrev pub intent_of : JobDispatch → DispatchIntent
intent_of dispatch = record {
  id = dispatch.id;
  job_type = dispatch.job_type;
  job_id = dispatch.job_id;
  queue_name = dispatch.queue_name;
  attempt = dispatch.attempts + 1;
}

abbrev pub claim_row : Time → ℕ → JobDispatch → Jobs → Jobs
claim_row now lease dispatch db = set_dispatch dispatch.id (claim now lease) db

unfoldable pub claim_due : Time → ℕ → ℕ → Session → List DispatchIntent × Session
unfolding due_dispatches claim
claim_due now limit lease session =
    let rows = due_dispatches now limit session.stored in
    (map intent_of rows, write (for_each (claim_row now lease) rows) session)

abbrev pub active_import : Option ImportJob → Bool
active_import none = false
active_import (some job) = is_active_job job.status

abbrev pub active_media : Option MediaJob → Bool
active_media none = false
active_media (some job) = is_active_job job.status

abbrev active_bundle : Option LegacyBundle → Bool
active_bundle none = false
active_bundle (some bundle) = is_working bundle.status

-- `_job_is_active`
unfoldable pub job_is_active : JobType → Uuid → Jobs → Bool
job_is_active legacy_type id db = active_bundle (find (has_bundle_id id) db.legacy_bundles)
job_is_active import_type id db = active_import (find (has_import_id id) db.import_jobs)
job_is_active media_type id db = active_media (find (has_media_id id) db.media_jobs)

unfoldable pub deliver : Time → JobDispatch → JobDispatch
deliver now dispatch = record dispatch {
  status = delivered;
  delivered_at = some now;
  next_attempt_at = now;
  error_code = none;
  updated_at = now;
}

abbrev enqueue : Time → MediaJob → MediaJob
enqueue now job = record job { last_enqueued_at = some now; updated_at = now }

unfoldable pub deliver_found : Time → JobDispatch → Jobs → Jobs
unfolding job_is_active deliver
deliver_found now dispatch db =
    let done = set_dispatch dispatch.id (deliver now) db in
    if job_is_active dispatch.job_type dispatch.job_id db && is_media dispatch.job_type
    then set_media dispatch.job_id (enqueue now) done
    else done

-- `if dispatch is None or dispatch.status != "pending": return`, and the rest on the row
abbrev pub on_pending : Option JobDispatch → (JobDispatch → Jobs → Jobs) → Jobs → Jobs
on_pending none body db = db
on_pending (some dispatch) body db = if is_pending dispatch.status then body dispatch db else db

unfoldable pub mark_delivered : Uuid → Time → Jobs → Jobs
unfolding deliver_found
mark_delivered id now db =
    on_pending (find (has_dispatch_id id) db.dispatches) (deliver_found now) db

-- `_backoff_seconds`
unfoldable pub backoff_seconds : ℕ → ℕ
backoff_seconds attempt = min 60 (5 * 2 ^ (attempt - 1))

abbrev pub fail_found_import : Uuid → Time → Option ImportJob → Jobs → Jobs
fail_found_import id now none db = db
fail_found_import id now (some job) db = fail_import id job now db

abbrev pub fail_found_media : Uuid → Time → Option (MediaJob × MediaAsset) → Jobs → Jobs
fail_found_media id now none db = db
fail_found_media id now (some row) db = fail_media id row.0 now db

-- `if bundle is not None` needs no test: the write is to the rows with the identifier
unfoldable pub fail_exhausted : JobType → Uuid → Uuid → Time → Jobs → Jobs
unfolding exhaust_legacy fail_bundle fail_import fail_media
fail_exhausted legacy_type id job_id now db =
    set_bundle job_id (λ bundle. record (fail_bundle bundle) { updated_at = now })
      (set_dispatch id exhaust_legacy db)
fail_exhausted import_type id job_id now db =
    fail_found_import id now (find (has_import_id job_id) db.import_jobs) db
fail_exhausted media_type id job_id now db = fail_found_media id now (find_media db job_id) db

unfoldable pub postpone : Time → JobDispatch → JobDispatch
unfolding backoff_seconds
postpone now dispatch = record dispatch {
  error_code = some "broker_unavailable";
  next_attempt_at = now + seconds (backoff_seconds dispatch.attempts);
  updated_at = now;
}

unfoldable pub fail_found : Time → JobDispatch → Jobs → Jobs
unfolding job_is_active deliver fail_exhausted postpone
fail_found now dispatch db =
    if job_is_active dispatch.job_type dispatch.job_id db
    then if is_exhausted dispatch
      then fail_exhausted dispatch.job_type dispatch.id dispatch.job_id now db
      else set_dispatch dispatch.id (postpone now) db
    else set_dispatch dispatch.id (deliver now) db

unfoldable pub mark_delivery_failed : Uuid → Time → Jobs → Jobs
unfolding fail_found
mark_delivery_failed id now db =
    on_pending (find (has_dispatch_id id) db.dispatches) (fail_found now) db
