-- ===== src/Media/Sound.antt =====
-- What holds of every media job while the workers of src/arduino_component_kb/media/processor.py and
-- src/arduino_component_kb/media/video_processor.py, the broker and the manual retry work on it.
use arduino_component_knowle.Prelude.{
  ℕ, ◌≤◌, ◌<◌, String, ◌≡◌, refl, ◌⊎◌, inl, inr, Bool, true, false, Option, none, some, arith, leb,
  Bool-cases, Option-cases,
}
use arduino_component_knowle.Exec.{ok}
use arduino_component_knowle.Auth.Domain.{Time}
use arduino_component_knowle.Dispatch.Writes.{fail_media_job}
use arduino_component_knowle.Dispatch.Schema.{
  is_active_job, JobStatus, job_queued, job_running, job_retrying, job_succeeded, job_failed,
  job_cancelled, asset_rejected,
}
use arduino_component_knowle.Media.Jobs.{
  Work, is_finished, claim_job, taken, exhausted, waits, is_leased, update_job_progress,
  prepare_manual_retry, give_up_delivery, retry_status, complete_job, complete_video_job,
  ProcessedVideo, mark_enqueued, Processed, reject_job, record_storage_failure, requeued,
}

-- The attempts are within their limit, the progress is a percentage, and a rejected asset has the
-- reason for it.
pub record Sound (work : Work) : Type 0 where
  pub within : work.job.attempts ≤ work.job.max_attempts
  pub percentage : work.job.progress_percent ≤ 100
  pub explained :
      work.asset.status ≡ asset_rejected → (code : String) × (work.asset.failure_code ≡ some code)

-- One transaction on the rows. None of them asks whether the worker still has its lease, so a report
-- may come at any time, from either worker, and with what the worker has read of the job in its
-- claim: how much progress it saw, and whether the attempt was the last. A report writes all the
-- columns that its method sets.
pub data Step : Work → Work → Type 0 where
  claimed : {work : Work} (now : Time) (lease : ℕ) → Step work (claim_job now lease work).1
  progressed :
      {work : Work} (phase : String) (seen percent : ℕ) (now : Time)
      → seen ≤ 100
      → percent ≤ 100
      → Step work (record work {
        job = update_job_progress phase percent now (record work.job { progress_percent = seen });
      })
  completed :
      {work : Work} (image : Processed) (now : Time) → Step work (complete_job image now work)
  completed_video :
      {work : Work} (clip : ProcessedVideo) (now : Time)
      → Step work (complete_video_job clip now work)
  enqueued :
      {work : Work} (now : Time) → Step work (record work { job = mark_enqueued now work.job })
  rejected : {work : Work} (code : String) (now : Time) → Step work (reject_job code now work)
  attempt_failed :
      {work : Work} (terminal : Bool) (now : Time) (transient_code terminal_code : String)
      (delay : ℕ)
      → Step work (record_storage_failure terminal now transient_code terminal_code delay work)
  undelivered : {work : Work} (now : Time) → Step work (give_up_delivery now work)
  retried :
      {work next : Work} (reset : Bool) (now : Time)
      → prepare_manual_retry now work ≡ ok (reset, next)
      → Step work next

pub data Steps : Work → Work → Type 0 where
  stay : {work : Work} → Steps work work
  then_step : {a b c : Work} → Step a b → Steps b c → Steps a c

-- What a claim does, one case for each way through it.
pub data Claimed (now : Time) (work : Work) : Option Work × Work → Type 0 where
  left_alone : Claimed now work (none, work)
  gave_up :
      is_finished work.job.status ≡ false
      → work.job.max_attempts ≤ work.job.attempts
      → Claimed now work (none, exhausted now work)
  took :
      is_finished work.job.status ≡ false
      → work.job.attempts < work.job.max_attempts
      → Claimed now work (some (taken now work), taken now work)

pub claim_job-Claimed :
    (now : Time) (lease : ℕ) (work : Work) → Claimed now work (claim_job now lease work)
unfolding claim_job
claim_job-Claimed now lease work = elim (Bool-cases (is_finished work.job.status)) [
  | inl e ↦ rw e left_alone
  | inr e ↦ elim (Bool-cases (waits now work.job)) [
    | inl w ↦ rw (e, w) left_alone
    | inr w ↦ elim (Bool-cases (is_leased now lease work.job)) [
      | inl l ↦ rw (e, w, l) left_alone
      | inr l ↦ elim (Bool-cases (leb work.job.max_attempts work.job.attempts)) [
        | inl m ↦ rw (e, w, l, m) (gave_up e (ground arith))
        | inr m ↦ rw (e, w, l, m) (took e (ground arith))
      ]
    ]
  ]
]

taking-Sound :
    (now : Time) (work : Work) (r : Option Work × Work)
    → Claimed now work r
    → Sound work
    → Sound r.1
unfolding exhausted taken
taking-Sound now work r left_alone s = s
taking-Sound now work r (gave_up e m) s = record {
  within = s.within;
  percentage = s.percentage;
  explained = λ _. ("media_attempts_exhausted", refl);
}
taking-Sound now work r (took e m) s =
    let small = s.percentage in
    record { within = ground arith; percentage = ground arith; explained = s.explained }

failed_attempt-Sound :
    (terminal : Bool) (now : Time) (a b : String) (delay : ℕ) (work : Work)
    → Sound work
    → Sound (record_storage_failure terminal now a b delay work)
unfolding record_storage_failure
failed_attempt-Sound true now a b delay work s = record {
  within = s.within;
  percentage = s.percentage;
  explained = λ _. (b, refl);
}
failed_attempt-Sound false now a b delay work s = record {
  within = s.within;
  percentage = s.percentage;
  explained = s.explained;
}

give_up_delivery-Sound : (now : Time) (work : Work) → Sound work → Sound (give_up_delivery now work)
unfolding give_up_delivery fail_media_job
give_up_delivery-Sound now work s = elim (Bool-cases (is_active_job work.job.status)) [
  | inl e ↦ rw e (record {
    within = s.within;
    percentage = s.percentage;
    explained = λ _. ("media_dispatch_exhausted", refl);
  })
  | inr e ↦ rw e s
]

retried_rows :
    (status : JobStatus) (now : Time) (work next : Work) (reset : Bool)
    → retry_status now work status ≡ ok (reset, next)
    → (next ≡ work) ⊎ (next ≡ requeued now work)
retried_rows job_queued now work next reset e = inl cc
retried_rows job_failed now work next reset e = elim (Option-cases work.asset.storage_cleaned_at) [
  | inl n ↦ inr cc
  | inr (t, n) ↦ absurd cc
]
retried_rows job_running now work next reset e = absurd cc
retried_rows job_retrying now work next reset e = absurd cc
retried_rows job_succeeded now work next reset e = absurd cc
retried_rows job_cancelled now work next reset e = absurd cc

retried-Sound :
    (now : Time) (work next : Work) (reset : Bool)
    → prepare_manual_retry now work ≡ ok (reset, next)
    → Sound work
    → Sound next
unfolding prepare_manual_retry
retried-Sound now work next reset e s = elim (retried_rows work.job.status now work next reset e) [
  | inl same ↦ rw same s
  | inr same ↦
      rw same
        (record { within = omega arith; percentage = omega arith; explained = λ is. absurd cc })
]

next-Sound : {a b : Work} → Step a b → Sound a → Sound b
unfolding update_job_progress complete_job complete_video_job mark_enqueued reject_job
next-Sound (claimed {work = work} now lease) s =
    taking-Sound now work (claim_job now lease work) (claim_job-Claimed now lease work) s
next-Sound (progressed phase seen percent now before small) s = record {
  within = s.within;
  percentage = ground arith;
  explained = s.explained;
}
next-Sound (completed image now) s = record {
  within = s.within;
  percentage = omega arith;
  explained = λ is. absurd cc;
}
next-Sound (completed_video clip now) s = record {
  within = s.within;
  percentage = omega arith;
  explained = λ is. absurd cc;
}
next-Sound (enqueued now) s = record {
  within = s.within;
  percentage = s.percentage;
  explained = s.explained;
}
next-Sound (rejected code now) s = record {
  within = s.within;
  percentage = s.percentage;
  explained = λ _. (code, refl);
}
next-Sound (attempt_failed {work = work} terminal now a b delay) s =
    failed_attempt-Sound terminal now a b delay work s
next-Sound (undelivered {work = work} now) s = give_up_delivery-Sound now work s
next-Sound (retried {work = work} {next = next} reset now e) s =
    retried-Sound now work next reset e s

-- Where a media job has its attempts within their limit and its progress a percentage, and its
-- asset has a failure code if it is rejected, it has so after any claims, marks of the broker,
-- reports of either worker at any time, even after its lease, failures by the dispatcher, and
-- manual retries, where the workers read and report at most 100 percent.
pub run-Sound : {a b : Work} → Steps a b → Sound a → Sound b
run-Sound stay s = s
run-Sound (then_step step rest) s = run-Sound rest (next-Sound step s)
