-- ===== src/Media/Retries.antt =====
-- How often a media job is taken: `attempts` in `claim_job` of
-- src/arduino_component_kb/media/repository.py.
use arduino_component_knowle.Prelude.{
  ℕ, zero, suc, ◌+◌, ◌≤◌, ◌<◌, String, ◌≡◌, refl, Bool, true, false, Option, none, some, arith,
  Bool-cases, inl, inr,
}
use arduino_component_knowle.Auth.Domain.{Time}
use arduino_component_knowle.Dispatch.Schema.{is_active_job}
use arduino_component_knowle.Dispatch.Writes.{fail_media_job}
use arduino_component_knowle.Media.Jobs.{
  give_up_delivery, Work, claim_job, taken, exhausted, update_job_progress, complete_job,
  complete_video_job, ProcessedVideo, mark_enqueued, Processed, reject_job, record_storage_failure,
}
use arduino_component_knowle.Media.Sound.{Claimed, left_alone, gave_up, took, claim_job-Claimed}

-- Transactions without a manual retry, with the number of claims that took the job. A report may come
-- at any time and from either worker, with what the worker has read of the job in its claim.
pub data Attempts : ℕ → Work → Work → Type 0 where
  none_left : {work : Work} → Attempts zero work work
  taken_by :
      {n : ℕ} {work held last : Work} (now : Time) (lease : ℕ)
      → (claim_job now lease work).0 ≡ some held
      → Attempts n (claim_job now lease work).1 last
      → Attempts (suc n) work last
  missed :
      {n : ℕ} {work last : Work} (now : Time) (lease : ℕ)
      → (claim_job now lease work).0 ≡ none
      → Attempts n (claim_job now lease work).1 last
      → Attempts n work last
  progressed :
      {n : ℕ} {work last : Work} (phase : String) (seen percent : ℕ) (now : Time)
      → Attempts n
          (record work {
            job =
                update_job_progress phase percent now (record work.job { progress_percent = seen });
          })
          last
      → Attempts n work last
  completed :
      {n : ℕ} {work last : Work} (image : Processed) (now : Time)
      → Attempts n (complete_job image now work) last
      → Attempts n work last
  completed_video :
      {n : ℕ} {work last : Work} (clip : ProcessedVideo) (now : Time)
      → Attempts n (complete_video_job clip now work) last
      → Attempts n work last
  enqueued :
      {n : ℕ} {work last : Work} (now : Time)
      → Attempts n (record work { job = mark_enqueued now work.job }) last
      → Attempts n work last
  rejected :
      {n : ℕ} {work last : Work} (code : String) (now : Time)
      → Attempts n (reject_job code now work) last
      → Attempts n work last
  undelivered :
      {n : ℕ} {work last : Work} (now : Time)
      → Attempts n (give_up_delivery now work) last
      → Attempts n work last
  attempt_failed :
      {n : ℕ} {work last : Work} (terminal : Bool) (now : Time)
      (transient_code terminal_code : String) (delay : ℕ)
      → Attempts n
          (record_storage_failure terminal now transient_code terminal_code delay work)
          last
      → Attempts n work last

-- A claim that takes the job uses an attempt that was left.
took_one :
    (now : Time) (work held : Work) (r : Option Work × Work)
    → Claimed now work r
    → r.0 ≡ some held
    → (r.1.job.attempts ≡ work.job.attempts + 1)
      × (r.1.job.max_attempts ≡ work.job.max_attempts)
      × (work.job.attempts < work.job.max_attempts)
unfolding taken
took_one now work held r left_alone e = absurd cc
took_one now work held r (gave_up f m) e = absurd cc
took_one now work held r (took f m) e = (refl, refl, m)

took_none :
    (now : Time) (work : Work) (r : Option Work × Work)
    → Claimed now work r
    → r.0 ≡ none
    → (r.1.job.attempts ≡ work.job.attempts) × (r.1.job.max_attempts ≡ work.job.max_attempts)
unfolding exhausted
took_none now work r left_alone e = (refl, refl)
took_none now work r (gave_up f m) e = (refl, refl)
took_none now work r (took f m) e = absurd cc

failed_attempt-same :
    (terminal : Bool) (now : Time) (a b : String) (delay : ℕ) (work : Work)
    → ((record_storage_failure terminal now a b delay work).job.attempts ≡ work.job.attempts)
      × ((record_storage_failure terminal now a b delay work).job.max_attempts
          ≡ work.job.max_attempts)
unfolding record_storage_failure
failed_attempt-same true now a b delay work = (refl, refl)
failed_attempt-same false now a b delay work = (refl, refl)

give_up_delivery-same :
    (now : Time) (work : Work)
    → ((give_up_delivery now work).job.attempts ≡ work.job.attempts)
      × ((give_up_delivery now work).job.max_attempts ≡ work.job.max_attempts)
unfolding give_up_delivery fail_media_job
give_up_delivery-same now work = elim (Bool-cases (is_active_job work.job.status)) [
  | inl e ↦ rw e (refl, refl)
  | inr e ↦ rw e (refl, refl)
]

-- Without a manual retry a media job whose attempts are within their limit is taken by no more
-- claims than it has attempts left, whatever either worker reports, and whenever, and if the
-- dispatcher fails it.
pub claims_bounded :
    {n : ℕ} {a b : Work}
    → Attempts n a b
    → a.job.attempts ≤ a.job.max_attempts
    → a.job.attempts + n ≤ a.job.max_attempts
unfolding update_job_progress complete_job complete_video_job mark_enqueued reject_job
claims_bounded none_left h = omega arith
claims_bounded (taken_by {work = work} {held = held} now lease e rest) h =
    let (more, same, left) =
      took_one now work held (claim_job now lease work) (claim_job-Claimed now lease work) e in
    let bound = claims_bounded rest (omega arith) in omega arith
claims_bounded (missed {work = work} now lease e rest) h =
    let (same_attempts, same) =
      took_none now work (claim_job now lease work) (claim_job-Claimed now lease work) e in
    let bound = claims_bounded rest (omega arith) in omega arith
claims_bounded (progressed phase seen percent now rest) h = claims_bounded rest h
claims_bounded (completed image now rest) h = claims_bounded rest h
claims_bounded (completed_video clip now rest) h = claims_bounded rest h
claims_bounded (enqueued now rest) h = claims_bounded rest h
claims_bounded (rejected code now rest) h = claims_bounded rest h
claims_bounded (undelivered {work = work} now rest) h =
    let (same_attempts, same) = give_up_delivery-same now work in
    let bound = claims_bounded rest (omega arith) in omega arith
claims_bounded (attempt_failed {work = work} terminal now a b delay rest) h =
    let (same_attempts, same) = failed_attempt-same terminal now a b delay work in
    let bound = claims_bounded rest (omega arith) in omega arith
