-- ===== src/Media/Leases.antt =====
-- The lease of a media job: `heartbeat_at` and `started_at` in `claim_job` of
-- src/arduino_component_kb/media/repository.py.
use arduino_component_knowle.Prelude.{
  ℕ, zero, suc, ◌+◌, ◌-◌, ◌*◌, ◌^◌, ◌≤◌, ◌<◌, String, ◌≡◌, refl, sym, ap, true, false, Option, none,
  some, arith, ltb, some-eq, if◌then◌else◌, Bool-cases, inl, inr,
}
use arduino_component_knowle.Auth.Domain.{Time}
use arduino_component_knowle.Dispatch.Schema.{MediaJob, job_running, job_succeeded}
use arduino_component_knowle.Media.Jobs.{
  Work, claim_job, taken, update_job_progress, is_terminal, delay_seconds, video_delay_seconds,
  fail_attempt, fail_video_attempt, record_storage_failure, microseconds,
}
use arduino_component_knowle.Media.Sound.{Claimed, left_alone, gave_up, took, claim_job-Claimed}

rows_taken :
    (now : Time) (work held : Work) (r : Option Work × Work)
    → Claimed now work r
    → r.0 ≡ some held
    → held ≡ taken now work
rows_taken now work held r left_alone e = absurd cc
rows_taken now work held r (gave_up f m) e = absurd cc
rows_taken now work held r (took f m) e = sym (some-eq e)

-- A job that runs and has been heard of is not taken.
running_refused :
    (later beat : Time) (lease : ℕ) (work : Work)
    → work.job.status ≡ job_running
    → work.job.heartbeat_at ≡ some beat
    → later < beat + lease
    → claim_job later lease work ≡ (none, work)
unfolding claim_job
running_refused later beat lease work running heard early =
    let held : ltb later (beat + lease) ≡ true = ground arith in rw (running, heard, held) refl

-- After a claim that took a media job, a claim before the lease has ended takes nothing and changes
-- nothing, and a claim before the lease counted from a later report of progress takes nothing.
pub lease_excludes :
    (now later beat : Time) (lease percent : ℕ) (phase : String) (work held : Work)
    → (claim_job now lease work).0 ≡ some held
    → (later < now + lease → claim_job later lease held ≡ (none, held))
      × (later < beat + lease
          → (claim_job later lease
              (record held { job = update_job_progress phase percent beat held.job })).0
            ≡ none)
unfolding taken update_job_progress
lease_excludes now later beat lease percent phase work held e =
    let same =
      rows_taken now work held (claim_job now lease work) (claim_job-Claimed now lease work) e in
    (
      (λ early.
          running_refused later now lease held (ap (λ w. w.job.status) same)
            (ap (λ w. w.job.heartbeat_at) same) early),
      (λ early.
          ap (λ r. r.0)
            (running_refused later beat lease
              (record held { job = update_job_progress phase percent beat held.job })
              (ap (λ w. w.job.status) same) refl early)),
    )

-- ## The delay after a failed attempt

power_positive : (k : ℕ) → 1 ≤ 2 ^ k
power_positive zero = omega arith
power_positive (suc k) = let one = power_positive k in ground arith

delay_bounds : (job : MediaJob) → (5 ≤ delay_seconds job) × (delay_seconds job ≤ 60)
unfolding delay_seconds
delay_bounds job = let one = power_positive (job.attempts - 1) in (ground arith, ground arith)

video_delay_bounds :
    (job : MediaJob) → (15 ≤ video_delay_seconds job) × (video_delay_seconds job ≤ 120)
unfolding video_delay_seconds
video_delay_bounds job = let one = power_positive (job.attempts - 1) in (ground arith, ground arith)

-- A job that is to be tried again can be claimed once the delay has passed.
claim_after_failure :
    (now later : Time) (lease delay : ℕ) (a b : String) (work : Work)
    → work.job.attempts < work.job.max_attempts
    → let failed = record_storage_failure false now a b delay work in
      claim_job later lease failed ≡ (
        if ltb later (now + delay)
        then (none, failed)
        else (some (taken later failed), taken later failed))
unfolding claim_job record_storage_failure
claim_after_failure now later lease delay a b work left =
    let not_terminal : is_terminal work.job ≡ false = ground arith in
    elim (Bool-cases (ltb later (now + delay))) [
      | inl e ↦ rw e refl
      | inr e ↦ rw (e, not_terminal) refl
    ]

-- After a failed attempt, not the last, a media job waits: 5 to 60 seconds where the image worker
-- has failed, 15 to 120 seconds where the video worker has. A claim before that takes nothing and
-- changes nothing, a claim from then on takes it.
pub failed_attempt_waits :
    (now later : Time) (lease : ℕ) (work : Work)
    → 1 ≤ work.job.attempts
    → work.job.attempts < work.job.max_attempts
    → let delay = delay_seconds work.job in
      let video_delay = video_delay_seconds work.job in
      let failed = fail_attempt now work in
      let video_failed = fail_video_attempt now work in
      (5 ≤ delay)
      × (delay ≤ 60)
      × (claim_job later lease failed ≡ (
          if ltb later (now + delay * microseconds)
          then (none, failed)
          else (some (taken later failed), taken later failed)))
      × (15 ≤ video_delay)
      × (video_delay ≤ 120)
      × (claim_job later lease video_failed ≡ (
          if ltb later (now + video_delay * microseconds)
          then (none, video_failed)
          else (some (taken later video_failed), taken later video_failed)))
unfolding fail_attempt fail_video_attempt
failed_attempt_waits now later lease work begun left =
    let (low, high) = delay_bounds work.job in
    let (video_low, video_high) = video_delay_bounds work.job in
    let not_terminal : is_terminal work.job ≡ false = ground arith in
    (
      low,
      high,
      rw not_terminal (
          claim_after_failure now later lease (delay_seconds work.job * microseconds)
            "media_storage_transient" "media_storage_failed" work left),
      video_low,
      video_high,
      rw not_terminal (
          claim_after_failure now later lease (video_delay_seconds work.job * microseconds)
            "media_processing_transient" "media_processing_failed" work left),
    )

-- A report of a storage failure with an attempt left, on a job that has succeeded with attempts
-- left, leaves the asset as it is, and a claim from the end of the delay on takes the job again.
pub late_report_reopens :
    (now later : Time) (lease delay : ℕ) (transient_code terminal_code : String) (work : Work)
    → work.job.status ≡ job_succeeded
    → work.job.attempts < work.job.max_attempts
    → now + delay ≤ later
    → let reopened = record_storage_failure false now transient_code terminal_code delay work in
      (reopened.asset ≡ work.asset)
      × (claim_job later lease reopened ≡ (some (taken later reopened), taken later reopened))
unfolding claim_job record_storage_failure
late_report_reopens now later lease delay transient_code terminal_code work done left due =
    let free : ltb later (now + delay) ≡ false = ground arith in
    let not_terminal : is_terminal work.job ≡ false = ground arith in
    (refl, rw (free, not_terminal) refl)
