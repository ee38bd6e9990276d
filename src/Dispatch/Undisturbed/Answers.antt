-- ===== src/Dispatch/Undisturbed/Answers.antt =====
-- The answers of the broker about other dispatches, `mark_delivered` and `mark_delivery_failed`,
-- beside a dispatch that waits.
use arduino_component_knowle.Prelude.{
  ℕ, ◌≡◌, refl, inl, inr, Bool, true, false, ◌&&◌, Option, none, some, List, [], ◌∷◌, find, All,
  arith, ◌==◌, Bool-cases, inl, inr,
}
use arduino_component_knowle.Auth.Domain.{Time, Uuid}
use arduino_component_knowle.Dispatch.Schema.{
  JobType, import_type, media_type, legacy_type, JobDispatch, ImportJob, MediaJob, MediaAsset, Jobs,
}
use arduino_component_knowle.Dispatch.Writes.{
  is_pending, is_media, has_dispatch_id, has_import_id, exhaust, exhaust_legacy, fail_import,
}
use arduino_component_knowle.Dispatch.Recovery.{is_exhausted, find_media}
use arduino_component_knowle.Dispatch.Repository.{
  mark_delivered, mark_delivery_failed, deliver, postpone, job_is_active, fail_found_media,
  fail_found_import, deliver_found, fail_found, fail_exhausted, on_pending, DispatchIntent,
}
use arduino_component_knowle.Dispatch.Reconciler.{Outside, settle_intent, publish_all}
use arduino_component_knowle.Dispatch.Rows.{find-id}
use arduino_component_knowle.Dispatch.Undisturbed.{Undisturbed, Other, OtherIntent}
use arduino_component_knowle.Dispatch.Undisturbed.Writes.{fail_media-keeps}

module _ (id : Uuid) (P : JobDispatch → Type 0) (T : List JobDispatch → Type 0)
    (u : Undisturbed id P T) where
  deliver_found-keeps :
      (now : Time) (row : JobDispatch) (db : Jobs)
      → Other id row
      → T db.dispatches
      → T (deliver_found now row db).dispatches
  unfolding deliver_found deliver
  deliver_found-keeps now row db o h =
      let set = u.after_write row.id (deliver now) o (λ d. refl) db.dispatches h in
      elim (Bool-cases (job_is_active row.job_type row.job_id db && is_media row.job_type)) [
        | inl e ↦ rw e set
        | inr e ↦ rw e set
      ]

  fail_found_media-keeps :
      (other : Uuid) (now : Time) (found : Option (MediaJob × MediaAsset)) (db : Jobs)
      → (other == id) ≡ false
      → T db.dispatches
      → T (fail_found_media other now found db).dispatches
  fail_found_media-keeps other now none db o h = h
  fail_found_media-keeps other now (some row) db o h =
      fail_media-keeps id P T u other row.0 now db o h

  fail_found_import-keeps :
      (other : Uuid) (now : Time) (found : Option ImportJob) (db : Jobs)
      → (other == id) ≡ false
      → T db.dispatches
      → T (fail_found_import other now found db).dispatches
  unfolding fail_import exhaust
  fail_found_import-keeps other now none db o h = h
  fail_found_import-keeps other now (some job) db o h =
      u.after_write other (exhaust now) o (λ d. refl) db.dispatches h

  fail_exhausted-keeps :
      (type : JobType) (other job_id : Uuid) (now : Time) (db : Jobs)
      → (other == id) ≡ false
      → T db.dispatches
      → T (fail_exhausted type other job_id now db).dispatches
  unfolding fail_exhausted exhaust_legacy
  fail_exhausted-keeps import_type other job_id now db o h =
      fail_found_import-keeps other now (find (has_import_id job_id) db.import_jobs) db o h
  fail_exhausted-keeps media_type other job_id now db o h =
      fail_found_media-keeps other now (find_media db job_id) db o h
  fail_exhausted-keeps legacy_type other job_id now db o h =
      u.after_write other exhaust_legacy o (λ d. refl) db.dispatches h

  fail_found-keeps :
      (now : Time) (row : JobDispatch) (db : Jobs)
      → Other id row
      → T db.dispatches
      → T (fail_found now row db).dispatches
  unfolding fail_found deliver postpone
  fail_found-keeps now row db o h = elim (Bool-cases (job_is_active row.job_type row.job_id db)) [
    | inl e ↦ elim (Bool-cases (is_exhausted row)) [
      | inl x ↦ rw (e, x) (fail_exhausted-keeps row.job_type row.id row.job_id now db o h)
      | inr x ↦ rw (e, x) (u.after_write row.id (postpone now) o (λ d. refl) db.dispatches h)
    ]
    | inr e ↦ rw e (u.after_write row.id (deliver now) o (λ d. refl) db.dispatches h)
  ]

  on_pending-keeps :
      (found : Option JobDispatch) (body : JobDispatch → Jobs → Jobs) (db : Jobs)
      → ((row : JobDispatch) → found ≡ some row → T (body row db).dispatches)
      → T db.dispatches
      → T (on_pending found body db).dispatches
  on_pending-keeps none body db step h = h
  on_pending-keeps (some row) body db step h = elim (Bool-cases (is_pending row.status)) [
    | inl e ↦ rw e (step row refl)
    | inr e ↦ rw e h
  ]

  found_Other :
      (other : Uuid) (row : JobDispatch) (db : Jobs)
      → (other == id) ≡ false
      → find (has_dispatch_id other) db.dispatches ≡ some row
      → Other id row
  found_Other other row db o e = let f = find-id other db.dispatches row e in ground arith

  pub mark_delivered-keeps :
      (other : Uuid) (now : Time) (db : Jobs)
      → (other == id) ≡ false
      → T db.dispatches
      → T (mark_delivered other now db).dispatches
  unfolding mark_delivered
  mark_delivered-keeps other now db o h =
      on_pending-keeps (find (has_dispatch_id other) db.dispatches) (deliver_found now) db
        (λ row e. deliver_found-keeps now row db (found_Other other row db o e) h) h

  pub mark_delivery_failed-keeps :
      (other : Uuid) (now : Time) (db : Jobs)
      → (other == id) ≡ false
      → T db.dispatches
      → T (mark_delivery_failed other now db).dispatches
  unfolding mark_delivery_failed
  mark_delivery_failed-keeps other now db o h =
      on_pending-keeps (find (has_dispatch_id other) db.dispatches) (fail_found now) db
        (λ row e. fail_found-keeps now row db (found_Other other row db o e) h) h

  settle_intent-keeps :
      (answer : Bool) (now : Time) (intent : DispatchIntent) (counted : (ℕ × ℕ) × Jobs)
      → OtherIntent id intent
      → T counted.1.dispatches
      → T (settle_intent answer now intent counted).1.dispatches
  unfolding settle_intent
  settle_intent-keeps true now intent (counts, db) o h = mark_delivered-keeps intent.id now db o h
  settle_intent-keeps false now intent (counts, db) o h =
      mark_delivery_failed-keeps intent.id now db o h

  pub publish_all-keeps :
      (outside : Outside) (intents : List DispatchIntent) (counted : (ℕ × ℕ) × Jobs)
      → All (OtherIntent id) intents
      → T counted.1.dispatches
      → T (publish_all outside intents counted).1.dispatches
  unfolding publish_all
  publish_all-keeps outside [] counted o h = h
  publish_all-keeps outside (intent ∷ intents) counted o h =
      publish_all-keeps outside intents _ o.1 (
        settle_intent-keeps (outside.published intent) (outside.attempt_time intent) intent counted
          o.0 h)
