-- ===== src/Dispatch/Answers.antt =====
-- `mark_delivered` and `mark_delivery_failed` of src/arduino_component_kb/dispatch/repository.py on
-- a claimed dispatch.
use native.Mathlib.Nat.{one-le-pow}
use arduino_component_knowle.Prelude.{
  ℕ, ◌+◌, ◌-◌, ◌≤◌, ◌<◌, ◌≡◌, ◌≢◌, refl, sym, ap, ◌∙◌, inl, inr, Bool, true, false, ◌&&◌, Option,
  none, some, List, [], ◌∷◌, find, update_where, arith, ◌==◌, if◌then◌else◌, Bool-cases, some-eq,
}
use arduino_component_knowle.Auth.Domain.{Time, Uuid}
use arduino_component_knowle.Auth.Throttle.{seconds}
use arduino_component_knowle.Dispatch.Schema.{
  JobType, import_type, media_type, legacy_type, DispatchStatus, pending, delivered, failed,
  JobDispatch, Jobs, ImportJob, MediaJob, MediaAsset, is_active_job,
}
use arduino_component_knowle.Dispatch.Writes.{
  has_dispatch_id, is_pending, is_media, exhaust, exhaust_legacy, fail_import, fail_media,
  has_import_id, has_media_id, set_dispatch,
}
use arduino_component_knowle.Dispatch.Rows.{find-id}
use arduino_component_knowle.Dispatch.Recovery.{is_exhausted, find_media}
use arduino_component_knowle.Dispatch.Repository.{
  backoff_seconds, mark_delivered, mark_delivery_failed, deliver_found, deliver, fail_found,
  fail_exhausted, postpone, job_is_active, fail_found_import, fail_found_media, active_import,
  active_media,
}

backoff-bounds : (attempt : ℕ) → (5 ≤ backoff_seconds attempt) × (backoff_seconds attempt ≤ 60)
unfolding backoff_seconds
backoff-bounds attempt =
    let positive = one-le-pow (attempt - 1) 2 (ground arith) in (ground arith, ground arith)

-- Delivered, or failed, or to be tried again in 5 to 60 seconds with an attempt left.
abbrev pub IsAnswered : Time → JobDispatch → Type 0
IsAnswered now dispatch = elim dispatch.status [
  | delivered ↦ Unit
  | failed ↦ Unit
  | pending ↦
      (dispatch.attempts < dispatch.max_attempts)
      × (now + seconds 5 ≤ dispatch.next_attempt_at)
      × (dispatch.next_attempt_at ≤ now + seconds 60)
]

pending_status : (s : DispatchStatus) → is_pending s ≡ true → s ≡ pending
pending_status pending e = refl
pending_status delivered e = cc
pending_status failed e = cc

IsAnswered-pending :
    (now : Time) (dispatch : JobDispatch)
    → dispatch.status ≡ pending
    → dispatch.attempts < dispatch.max_attempts
    → now + seconds 5 ≤ dispatch.next_attempt_at
    → dispatch.next_attempt_at ≤ now + seconds 60
    → IsAnswered now dispatch
IsAnswered-pending now dispatch e left after before = rw e (left, after, before)

-- The row that a table has for an identifier.
abbrev pub FindsAnswered : Uuid → Time → Jobs → Type 0
FindsAnswered id now db =
    (row : JobDispatch) × (find (has_dispatch_id id) db.dispatches ≡ some row) × IsAnswered now row

find-head :
    (id : Uuid) (d : JobDispatch) (rest : List JobDispatch)
    → (d.id == id) ≡ true
    → find (has_dispatch_id id) (d ∷ rest) ≡ some d
find-head id d rest e = rw e refl

find-skip :
    (id : Uuid) (d : JobDispatch) (rest : List JobDispatch)
    → (d.id == id) ≡ false
    → find (has_dispatch_id id) (d ∷ rest) ≡ find (has_dispatch_id id) rest
find-skip id d rest e = rw e refl

find-update :
    (id : Uuid) (f : JobDispatch → JobDispatch)
    → ((dispatch : JobDispatch) → (f dispatch).id ≡ dispatch.id)
    → (dispatches : List JobDispatch) (row : JobDispatch)
    → find (has_dispatch_id id) dispatches ≡ some row
    → find (has_dispatch_id id) (update_where (has_dispatch_id id) f dispatches) ≡ some (f row)
find-update id f same [] row e = cc
find-update id f same (d ∷ rest) row e = elim (Bool-cases (d.id == id)) [
  | inl t ↦ rw t (
      let changed = update_where (has_dispatch_id id) f rest in
      find-head id (f d) changed (ap (λ x. x == id) (same d) ∙ t)
      ∙ ap (λ x. some (f x)) (some-eq (sym (find-head id d rest t) ∙ e)))
  | inr n ↦ rw n (
      find-skip id d (update_where (has_dispatch_id id) f rest) n
      ∙ find-update id f same rest row (sym (find-skip id d rest n) ∙ e))
]

-- `media_jobs.asset_id` refers to an asset.
abbrev pub AssetsExist : Jobs → Type 0
AssetsExist db = (id : Uuid) → find_media db id ≡ none → find (has_media_id id) db.media_jobs ≡ none

module _ (id : Uuid) (now : Time) (row : JobDispatch) (db : Jobs)
    (found : find (has_dispatch_id id) db.dispatches ≡ some row) where
  answered :
      (f : JobDispatch → JobDispatch)
      → ((dispatch : JobDispatch) → (f dispatch).id ≡ dispatch.id)
      → IsAnswered now (f row)
      → (answer : JobDispatch) × (find
            (has_dispatch_id id)
            (update_where (has_dispatch_id id) f db.dispatches)
          ≡ some answer)
        × IsAnswered now answer
  answered f same is = (f row, find-update id f same db.dispatches row found, is)

  deliver-IsAnswered : FindsAnswered id now (set_dispatch id (deliver now) db)
  unfolding deliver
  deliver-IsAnswered = answered (deliver now) (λ d. refl) tt

  postpone-IsAnswered :
      is_pending row.status ≡ true
      → is_exhausted row ≡ false
      → FindsAnswered id now (set_dispatch id (postpone now) db)
  unfolding postpone
  postpone-IsAnswered p e =
      answered (postpone now) (λ d. refl)
        (IsAnswered-pending now (postpone now row) (pending_status row.status p) (ground arith)
          (let b = backoff-bounds row.attempts in ground arith)
          (let b = backoff-bounds row.attempts in ground arith))

  fail_import-IsAnswered :
      (job : Option ImportJob)
      → active_import job ≡ true
      → FindsAnswered id now (fail_found_import id now job db)
  unfolding fail_import exhaust
  fail_import-IsAnswered none a = cc
  fail_import-IsAnswered (some job) a = answered (exhaust now) (λ d. refl) tt

  fail_media-IsAnswered :
      (asset : Option (MediaJob × MediaAsset))
      → asset ≢ none
      → FindsAnswered id now (fail_found_media id now asset db)
  unfolding fail_media exhaust
  fail_media-IsAnswered none a = elim (a refl) [ ]
  fail_media-IsAnswered (some pair) a = elim (Bool-cases (is_active_job pair.0.status)) [
    | inl e ↦ rw e (answered (exhaust now) (λ d. refl) tt)
    | inr e ↦ rw e (answered (exhaust now) (λ d. refl) tt)
  ]

  fail_exhausted-IsAnswered :
      (type : JobType) (job_id : Uuid)
      → AssetsExist db
      → job_is_active type job_id db ≡ true
      → FindsAnswered id now (fail_exhausted type id job_id now db)
  unfolding fail_exhausted exhaust_legacy job_is_active
  fail_exhausted-IsAnswered legacy_type job_id assets a = answered exhaust_legacy (λ d. refl) tt
  fail_exhausted-IsAnswered import_type job_id assets a =
      fail_import-IsAnswered (find (has_import_id job_id) db.import_jobs) a
  fail_exhausted-IsAnswered media_type job_id assets a =
      fail_media-IsAnswered (find_media db job_id)
        (λ e. (let n = assets job_id e in cc (a, ap active_media n)))

  id-row : row.id ≡ id
  id-row = let e = find-id id db.dispatches row found in ground arith

  fail_found-IsAnswered :
      AssetsExist db → is_pending row.status ≡ true → FindsAnswered id now (fail_found now row db)
  unfolding fail_found
  fail_found-IsAnswered assets p =
      rw id-row (elim (Bool-cases (job_is_active row.job_type row.job_id db)) [
        | inl a ↦ elim (Bool-cases (is_exhausted row)) [
          | inl e ↦ rw (a, e) (fail_exhausted-IsAnswered row.job_type row.job_id assets a)
          | inr e ↦ rw (a, e) (postpone-IsAnswered p e)
        ]
        | inr a ↦ rw a deliver-IsAnswered
      ])

  deliver_found-IsAnswered : FindsAnswered id now (deliver_found now row db)
  unfolding deliver_found
  deliver_found-IsAnswered =
      rw id-row
        (elim (Bool-cases (job_is_active row.job_type row.job_id db && is_media row.job_type)) [
          | inl e ↦ rw e deliver-IsAnswered
          | inr e ↦ rw e deliver-IsAnswered
        ])

-- Every answer of the broker settles the dispatch that was published: whether the publication
-- worked or not, a pending dispatch is afterwards delivered, or failed, or pending with an attempt
-- left and due again in 5 to 60 seconds. Media jobs have their assets.
pub answer_settles :
    (works : Bool) (id : Uuid) (now : Time) (row : JobDispatch) (db : Jobs)
    → find (has_dispatch_id id) db.dispatches ≡ some row
    → is_pending row.status ≡ true
    → AssetsExist db
    → FindsAnswered id now
        (if works then mark_delivered id now db else mark_delivery_failed id now db)
unfolding mark_delivered mark_delivery_failed
answer_settles true id now row db found p assets =
    rw (found, p) (deliver_found-IsAnswered id now row db found)
answer_settles false id now row db found p assets =
    rw (found, p) (fail_found-IsAnswered id now row db found assets p)
