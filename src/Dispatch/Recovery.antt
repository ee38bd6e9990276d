-- ===== src/Dispatch/Recovery.antt =====
-- `recover_lost_deliveries` of src/arduino_component_kb/dispatch/repository.py: deliveries that no
-- worker took up, or whose worker died.
use arduino_component_knowle.Prelude.{
  take, order_by, ℕ, Bool, true, false, ◌+◌, ◌-◌, ◌&&◌, not, Option, none, some, List, [], ◌∷◌,
  find, length, filter_rows, ltb, leb, ◌==◌, if◌then◌else◌,
}
use arduino_component_knowle.Auth.Domain.{Time, Uuid}
use arduino_component_knowle.Auth.Throttle.{seconds}
use arduino_component_knowle.Dispatch.Schema.{
  JobDispatch, JobStatus, job_queued, job_running, job_retrying, ImportJob, MediaJob, MediaAsset,
  is_working, LegacyBundle, Jobs, Session, flush,
}
use arduino_component_knowle.Dispatch.Queries.{earlier, older_than, is_due, is_stale, join_jobs}
use arduino_component_knowle.Dispatch.Writes.{
  is_delivered, is_import, is_media, is_legacy, has_import_id, has_media_id, has_asset_id,
  has_bundle_id, set_dispatch, set_bundle, make_pending, exhaust_legacy, fail_import, fail_media,
  fail_bundle,
}

-- What the settings say of recovery.
pub record RecoveryPolicy : Type 0 where
  pub stale_delivery_seconds : ℕ
  pub import_lease_seconds : ℕ
  pub media_lease_seconds : ℕ

-- `attempts >= max_attempts`
abbrev pub is_exhausted : JobDispatch → Bool
is_exhausted dispatch = leb dispatch.max_attempts dispatch.attempts

-- The condition on a job of the imports and of the media query.
abbrev is_lost : ℕ → ℕ → Time → JobDispatch → JobStatus → Option Time → Option Time → Bool
is_lost stale lease now dispatch job_queued retry_at heartbeat_at =
    older_than stale now dispatch.delivered_at
is_lost stale lease now dispatch job_retrying retry_at heartbeat_at = is_due now retry_at
is_lost stale lease now dispatch job_running retry_at heartbeat_at = is_stale lease now heartbeat_at
is_lost stale lease now dispatch _ retry_at heartbeat_at = false

abbrev pub write : (Jobs → Jobs) → Session → Session
write f session = record session { current = f session.current }

-- A loop over rows. No two rows share a dispatch or a job, so a row read before the loop still has
-- the values that the loop reads from it.
abbrev pub for_each : {A : Type 0} → (A → Jobs → Jobs) → List A → Jobs → Jobs
for_each body [] db = db
for_each body (row ∷ rows) db = for_each body rows (body row db)

abbrev updated_before : {J : Type 0} → JobDispatch × J → JobDispatch × J → Bool
updated_before a b = earlier a.0.updated_at a.0.id b.0.updated_at b.0.id

unfoldable pub lost_imports : ℕ → ℕ → Time → ℕ → Jobs → List (JobDispatch × ImportJob)
lost_imports stale lease now limit db = take limit (
    order_by updated_before (
      filter_rows
        (λ row.
          is_delivered row.0.status
          && is_lost stale lease now row.0 row.1.status row.1.next_retry_at row.1.heartbeat_at)
        (join_jobs is_import (λ id. find (has_import_id id) db.import_jobs) db.dispatches)))

unfoldable pub settle_import : Time → JobDispatch × ImportJob → Jobs → Jobs
unfolding make_pending fail_import
settle_import now row db =
    if is_exhausted row.0
    then fail_import row.0.id row.1 now db
    else set_dispatch row.0.id (make_pending now) db

-- `_recover_imports`
unfoldable pub recover_imports : ℕ → ℕ → Time → ℕ → Session → ℕ × Session
unfolding lost_imports settle_import
recover_imports stale lease now limit session =
    let rows = lost_imports stale lease now limit session.stored in
    (length rows, write (for_each (settle_import now) rows) session)

abbrev with_asset : Jobs → Option MediaJob → Option (MediaJob × MediaAsset)
with_asset db none = none
with_asset db (some job) = elim (find (has_asset_id job.asset_id) db.media_assets) [
  | none ↦ none
  | some asset ↦ some (job, asset)
]

-- A media job joined with its asset.
abbrev pub find_media : Jobs → Uuid → Option (MediaJob × MediaAsset)
find_media db id = with_asset db (find (has_media_id id) db.media_jobs)

unfoldable pub lost_media : ℕ → ℕ → Time → ℕ → Jobs → List (JobDispatch × (MediaJob × MediaAsset))
lost_media stale lease now limit db = take limit (
    order_by updated_before (
      filter_rows
        (λ row.
          is_delivered row.0.status
          && is_lost stale lease now row.0 row.1.0.status row.1.0.next_retry_at
              row.1.0.heartbeat_at)
        (join_jobs is_media (find_media db) db.dispatches)))

unfoldable pub settle_media : Time → JobDispatch × (MediaJob × MediaAsset) → Jobs → Jobs
unfolding make_pending fail_media
settle_media now row db =
    if is_exhausted row.0
    then fail_media row.0.id row.1.0 now db
    else set_dispatch row.0.id (make_pending now) db

-- `_recover_media`
unfoldable pub recover_media : ℕ → ℕ → Time → ℕ → Session → ℕ × Session
unfolding lost_media settle_media
recover_media stale lease now limit session =
    let rows = lost_media stale lease now limit session.stored in
    (length rows, write (for_each (settle_media now) rows) session)

-- The order in which the server returns the rows of a query without ORDER BY.
abbrev pub ServerOrder : Type 0
ServerOrder = List (JobDispatch × LegacyBundle) → List (JobDispatch × LegacyBundle)

unfoldable pub lost_bundles : ServerOrder → Time → ℕ → Jobs → List (JobDispatch × LegacyBundle)
lost_bundles server_order now limit db = take limit (
    server_order (
      filter_rows
        (λ row.
          is_delivered row.0.status
          && is_working row.1.status
          && ltb (row.1.updated_at + seconds 1800) now)
        (join_jobs is_legacy (λ id. find (has_bundle_id id) db.legacy_bundles) db.dispatches)))

-- The body of the loop over legacy bundles.
unfoldable pub settle_bundle : Time → JobDispatch × LegacyBundle → Jobs → Jobs
unfolding make_pending exhaust_legacy fail_bundle
settle_bundle now row db =
    let settled =
      if is_exhausted row.0
      then set_bundle row.1.id fail_bundle (set_dispatch row.0.id exhaust_legacy db)
      else set_dispatch row.0.id (make_pending now) db in
    set_bundle row.1.id (λ bundle. record bundle { updated_at = now }) settled

unfoldable pub recover_bundles : ServerOrder → Time → ℕ → Session → ℕ × Session
unfolding lost_bundles settle_bundle
recover_bundles server_order now limit session =
    let rows = lost_bundles server_order now limit session.stored in
    (length rows, write (for_each (settle_bundle now) rows) session)

-- Run where the first test holds, adding to a count.
abbrev pub and_count : Bool → (Session → ℕ × Session) → ℕ × Session → ℕ × Session
and_count true more (recovered, session) = let (n, after) = more session in (recovered + n, after)
and_count false more counted = counted

-- `if recovered: await self.session.flush()`
abbrev pub flush_recovered : ℕ × Session → ℕ × Session
flush_recovered (recovered, session) =
    (recovered, if recovered == 0 then session else flush session)

-- `recover_lost_deliveries`; the writes to legacy bundles are not flushed
unfoldable pub recover_lost_deliveries :
    ServerOrder → RecoveryPolicy → Time → ℕ → Session → ℕ × Session
unfolding recover_imports recover_media recover_bundles
recover_lost_deliveries server_order policy now limit session =
    let stale = policy.stale_delivery_seconds in
    let imports = recover_imports stale policy.import_lease_seconds now limit session in
    let remaining = limit - imports.0 in
    let jobs = flush_recovered (
      and_count (not (remaining == 0))
        (recover_media stale policy.media_lease_seconds now remaining) imports) in
    and_count (ltb jobs.0 limit) (recover_bundles server_order now (limit - jobs.0)) jobs
