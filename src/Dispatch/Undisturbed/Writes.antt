-- ===== src/Dispatch/Undisturbed/Writes.antt =====
-- The rows that a pass reads and writes, beside a dispatch that waits.
use arduino_component_knowle.Prelude.{
  All-take, All-order_by, All-filter_rows, ℕ, ◌≡◌, refl, inl, inr, false, find, All, arith, List,
  ◌==◌, Bool-cases, inl, inr,
}
use arduino_component_knowle.Auth.Domain.{Time, Uuid}
use arduino_component_knowle.Dispatch.Schema.{
  JobDispatch, ImportJob, MediaJob, MediaAsset, LegacyBundle, Jobs, is_active_job,
}
use arduino_component_knowle.Dispatch.Writes.{
  is_import, is_media, has_import_id, make_pending, exhaust, exhaust_legacy, fail_import,
  fail_media,
}
use arduino_component_knowle.Dispatch.Recovery.{
  is_exhausted, lost_imports, settle_import, find_media, lost_media, settle_media, settle_bundle,
}
use arduino_component_knowle.Dispatch.Repository.{is_claimable, due_dispatches, claim, claim_row}
use arduino_component_knowle.Dispatch.Rows.{All-join_jobs, OnId}
use arduino_component_knowle.Dispatch.Undisturbed.{Undisturbed, Other, Other-delivered}

module _ (id : Uuid) (P : JobDispatch → Type 0) (T : List JobDispatch → Type 0)
    (u : Undisturbed id P T) where
  -- The rows that recovery and claims read are other dispatches.
  pub Other-lost_imports :
      (stale lease : ℕ) (now : Time) (limit : ℕ) (db : Jobs)
      → T db.dispatches
      → All (λ row. Other id row.0) (lost_imports stale lease now limit db)
  unfolding lost_imports
  Other-lost_imports stale lease now limit db h =
      All-take (λ row. Other id row.0) limit _
        (All-order_by (λ row. Other id row.0) _ _
          (All-filter_rows (λ row. Other id row.0) _ _
            (λ row on passes. Other-delivered id P T u row.0 on (ground arith))
            (All-join_jobs (OnId id P) is_import
              (λ job_id. find (has_import_id job_id) db.import_jobs) db.dispatches
              (u.holds db.dispatches h))))

  pub Other-lost_media :
      (stale lease : ℕ) (now : Time) (limit : ℕ) (db : Jobs)
      → T db.dispatches
      → All (λ row. Other id row.0) (lost_media stale lease now limit db)
  unfolding lost_media
  Other-lost_media stale lease now limit db h =
      All-take (λ row. Other id row.0) limit _
        (All-order_by (λ row. Other id row.0) _ _
          (All-filter_rows (λ row. Other id row.0) _ _
            (λ row on passes. Other-delivered id P T u row.0 on (ground arith))
            (All-join_jobs (OnId id P) is_media (find_media db) db.dispatches
              (u.holds db.dispatches h))))

  pub Other-due_dispatches :
      (now : Time) (limit : ℕ) (db : Jobs)
      → ((row : JobDispatch) → P row → is_claimable now row ≡ false)
      → T db.dispatches
      → All (Other id) (due_dispatches now limit db)
  unfolding due_dispatches
  Other-due_dispatches now limit db rests h = All-take (Other id) limit _ (
      All-order_by (Other id) _ _ (
        All-filter_rows (Other id) _ _
          (λ row on passes. elim (Bool-cases (row.id == id)) [
            | inl e ↦ absurd (let x = rests row (on e) in cc)
            | inr e ↦ e
          ])
          (u.holds db.dispatches h)))

  -- A write to another dispatch.
  pub settle_import-keeps :
      (now : Time) (row : JobDispatch × ImportJob) (db : Jobs)
      → Other id row.0
      → T db.dispatches
      → T (settle_import now row db).dispatches
  unfolding settle_import fail_import exhaust make_pending
  settle_import-keeps now row db o h = elim (Bool-cases (is_exhausted row.0)) [
    | inl e ↦ rw e (u.after_write row.0.id (exhaust now) o (λ d. refl) db.dispatches h)
    | inr e ↦ rw e (u.after_write row.0.id (make_pending now) o (λ d. refl) db.dispatches h)
  ]

  pub fail_media-keeps :
      (other : Uuid) (job : MediaJob) (now : Time) (db : Jobs)
      → (other == id) ≡ false
      → T db.dispatches
      → T (fail_media other job now db).dispatches
  unfolding fail_media exhaust
  fail_media-keeps other job now db o h = elim (Bool-cases (is_active_job job.status)) [
    | inl e ↦ rw e (u.after_write other (exhaust now) o (λ d. refl) db.dispatches h)
    | inr e ↦ rw e (u.after_write other (exhaust now) o (λ d. refl) db.dispatches h)
  ]

  pub settle_media-keeps :
      (now : Time) (row : JobDispatch × (MediaJob × MediaAsset)) (db : Jobs)
      → Other id row.0
      → T db.dispatches
      → T (settle_media now row db).dispatches
  unfolding settle_media make_pending
  settle_media-keeps now row db o h = elim (Bool-cases (is_exhausted row.0)) [
    | inl e ↦ rw e (fail_media-keeps row.0.id row.1.0 now db o h)
    | inr e ↦ rw e (u.after_write row.0.id (make_pending now) o (λ d. refl) db.dispatches h)
  ]

  pub settle_bundle-keeps :
      (now : Time) (row : JobDispatch × LegacyBundle) (db : Jobs)
      → Other id row.0
      → T db.dispatches
      → T (settle_bundle now row db).dispatches
  unfolding settle_bundle make_pending exhaust_legacy
  settle_bundle-keeps now row db o h = elim (Bool-cases (is_exhausted row.0)) [
    | inl e ↦ rw e (u.after_write row.0.id exhaust_legacy o (λ d. refl) db.dispatches h)
    | inr e ↦ rw e (u.after_write row.0.id (make_pending now) o (λ d. refl) db.dispatches h)
  ]

  pub claim_row-keeps :
      (now : Time) (lease : ℕ) (row : JobDispatch) (db : Jobs)
      → Other id row
      → T db.dispatches
      → T (claim_row now lease row db).dispatches
  unfolding claim
  claim_row-keeps now lease row db o h =
      u.after_write row.id (claim now lease) o (λ d. refl) db.dispatches h
