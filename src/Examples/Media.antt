-- ===== src/Examples/Media.antt =====
-- The theorems on media jobs, applied to a job with two attempts.
use arduino_component_knowle.Prelude.{
  ◌+◌, ◌*◌, ◌≤◌, ◌<◌, ◌≡◌, refl, none, some, [], arith, false, true, ltb, if◌then◌else◌,
}
use arduino_component_knowle.Dispatch.Schema.{
  job_queued, images_queue, asset_processing, job_succeeded,
}
use arduino_component_knowle.Media.Jobs.{
  Work, claim_job, taken, complete_job, Processed, update_job_progress, fail_attempt, delay_seconds,
  fail_video_attempt, video_delay_seconds, microseconds, record_storage_failure,
}
use arduino_component_knowle.Media.Sound.{
  Sound, Steps, stay, then_step, claimed, completed, attempt_failed, run-Sound,
}
use arduino_component_knowle.Media.Leases.{
  lease_excludes, failed_attempt_waits, late_report_reopens,
}
use arduino_component_knowle.Media.Retries.{Attempts, none_left, taken_by, claims_bounded}
use arduino_component_knowle.Examples.Shop.{photo}

abbrev work : Work
work = record {
  job = record {
    id = 80;
    asset_id = 70;
    status = job_queued;
    attempts = 0;
    max_attempts = 2;
    manual_retry_count = 0;
    queue_name = images_queue;
    phase = "queued";
    progress_percent = 0;
    error_code = none;
    created_at = 10;
    started_at = none;
    heartbeat_at = none;
    next_retry_at = none;
    last_enqueued_at = none;
    finished_at = none;
    updated_at = 10;
  };
  asset = record photo { status = asset_processing };
  variants = [];
}

abbrev picture : Processed
picture = record {
  detected_mime = "image/png";
  size_bytes = 900;
  sha256 = "aa";
  phash = "bb";
  width = 640;
  height = 480;
  variants = [];
}

abbrev running : Work
running = (claim_job 100 50 work).1

abbrev finished : Work
finished = complete_job picture 120 running

-- A worker that has lost its lease says that its last attempt has failed.
abbrev late : Work
late = record_storage_failure true 130 "transient" "failed" 5 finished

is_taken : (claim_job 100 50 work).0 ≡ some running
unfolding claim_job
is_taken = refl

whole_run : Steps work late
unfolding claim_job taken
whole_run = then_step (claimed 100 50) (
    then_step (completed picture 120)
      (then_step (attempt_failed true 130 "transient" "failed" 5) stay))

work-Sound : Sound work
work-Sound = record { within = omega arith; percentage = omega arith; explained = λ is. absurd cc }

run-Sound_example : Sound late
run-Sound_example = run-Sound whole_run work-Sound

finished_status : finished.job.status ≡ job_succeeded
unfolding complete_job
finished_status = refl

lease_excludes_example :
    (149 < 100 + 50 → claim_job 149 50 running ≡ (none, running))
    × (149 < 140 + 50
        → (claim_job 149 50
            (record running { job = update_job_progress "uploading" 40 140 running.job })).0
          ≡ none)
lease_excludes_example = lease_excludes 100 149 140 50 40 "uploading" work running is_taken

running_left : running.job.attempts < running.job.max_attempts
unfolding claim_job taken
running_left = omega arith

running_begun : 1 ≤ running.job.attempts
unfolding claim_job taken
running_begun = omega arith

failed_attempt_waits_example :
    let delay = delay_seconds running.job in
    let video_delay = video_delay_seconds running.job in
    let failed = fail_attempt 130 running in
    let video_failed = fail_video_attempt 130 running in
    (5 ≤ delay)
    × (delay ≤ 60)
    × (claim_job 200 50 failed ≡ (
        if ltb 200 (130 + delay * microseconds)
        then (none, failed)
        else (some (taken 200 failed), taken 200 failed)))
    × (15 ≤ video_delay)
    × (video_delay ≤ 120)
    × (claim_job 200 50 video_failed ≡ (
        if ltb 200 (130 + video_delay * microseconds)
        then (none, video_failed)
        else (some (taken 200 video_failed), taken 200 video_failed)))
failed_attempt_waits_example = failed_attempt_waits 130 200 50 running running_begun running_left

one_claim : Attempts 1 work running
one_claim = taken_by 100 50 is_taken none_left

claims_bounded_example : 0 + 1 ≤ 2
claims_bounded_example = claims_bounded one_claim (omega arith)

finished_left : finished.job.attempts < finished.job.max_attempts
unfolding claim_job taken complete_job
finished_left = omega arith

late_report_reopens_example :
    let reopened = record_storage_failure false 160 "lost" "failed" 5 finished in
    (reopened.asset ≡ finished.asset)
    × (claim_job 200 50 reopened ≡ (some (taken 200 reopened), taken 200 reopened))
late_report_reopens_example =
    late_report_reopens 160 200 50 5 "lost" "failed" finished finished_status finished_left
      (omega arith)
