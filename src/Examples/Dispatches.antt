-- ===== src/Examples/Dispatches.antt =====
-- A dispatch table, and the theorems on dispatch applied to it.
use arduino_component_knowle.Prelude.{
  ◌+◌, ◌≤◌, ◌≡◌, refl, true, false, none, some, [], ◌∷◌, any, find, All, arith, ◌==◌,
}
use arduino_component_knowle.Dispatch.Schema.{
  import_type, imports_queue, pending, JobDispatch, job_queued, ImportJob, Jobs, open_session,
}
use arduino_component_knowle.Dispatch.Repository.{
  claim_due, mark_delivery_failed, DispatchCall, is_for, is_claimable, reset_dispatch,
}
use arduino_component_knowle.Dispatch.Reconciler.{Outside, BatchPolicy, reconcile_once}
use arduino_component_knowle.Dispatch.Stranded.{Stranded}
use arduino_component_knowle.Dispatch.Stranded.Passes.{exhausted_is_passed_over}
use arduino_component_knowle.Auth.Throttle.{seconds}
use arduino_component_knowle.Dispatch.Between.{
  Between, claimed, answered_failed, none_more, recover_and_claim,
}
use arduino_component_knowle.Dispatch.Claims.{claims_exclusive}
use arduino_component_knowle.Dispatch.Answers.{FindsAnswered, answer_settles}
use arduino_component_knowle.Dispatch.Restarts.{reset_can_be_claimed}
use arduino_component_knowle.Dispatch.Attempts.{WithinLimit, claim_due-WithinLimit}
use arduino_component_knowle.Dispatch.Batches.{pass_counts}

abbrev job : ImportJob
job = record {
  id = 7;
  status = job_queued;
  error_code = none;
  next_retry_at = none;
  finished_at = none;
  heartbeat_at = none;
  updated_at = 0;
}

-- Three of four attempts are used.
abbrev tried : JobDispatch
tried = record {
  id = 1;
  job_type = import_type;
  job_id = 7;
  queue_name = imports_queue;
  status = pending;
  attempts = 3;
  max_attempts = 4;
  next_attempt_at = 100;
  last_attempt_at = some 50;
  delivered_at = none;
  error_code = some "broker_unavailable";
  created_at = 0;
  updated_at = 50;
}

abbrev queue : Jobs
queue = record {
  dispatches = tried ∷ [];
  import_jobs = job ∷ [];
  media_jobs = [];
  media_assets = [];
  legacy_bundles = [];
}

abbrev outside : Outside
outside = record {
  server_order = λ rows. rows;
  published = λ intent. true;
  attempt_time = λ intent. 300;
}

abbrev policy : BatchPolicy
policy = record {
  recovery = record {
    stale_delivery_seconds = 60;
    import_lease_seconds = 300;
    media_lease_seconds = 300;
  };
  batch_size = 10;
  claim_lease_seconds = 30;
}

-- The reconciler claims the last attempt, and dies before it publishes.
abbrev crashed : Jobs
crashed = (claim_due 200 10 30 (open_session queue)).1.current

crashed-Stranded : Stranded 1 crashed
unfolding claim_due
crashed-Stranded = record {
  present = refl;
  holds = ((λ is. record { waits = refl; exhausted = refl }), tt);
}

exhausted_is_passed_over_example : Stranded 1 (reconcile_once outside policy 900000000000 crashed).1
exhausted_is_passed_over_example =
    exhausted_is_passed_over 1 outside policy 900000000000 crashed (λ P rows h. h) crashed-Stranded

-- Between two claims another reconciler claims, and an answer comes for another dispatch.
abbrev meanwhile : Jobs
meanwhile =
    mark_delivery_failed 2 350
      (recover_and_claim outside.server_order policy.recovery 300 10 30
        (claim_due 200 10 30 (open_session queue)).1.current).1.current

meanwhile-Between :
    Between outside.server_order 1
      (200 + seconds 30)
      (claim_due 200 10 30 (open_session queue)).1.current
      meanwhile
meanwhile-Between =
    claimed policy.recovery 300 10 30 (omega arith) (answered_failed 2 350 refl none_more)

was_claimed : any (λ intent. intent.id == 1) (claim_due 200 10 30 (open_session queue)).0 ≡ true
unfolding claim_due
was_claimed = refl

claims_exclusive_example :
    any
      (λ again. again.id == 1)
      (recover_and_claim outside.server_order policy.recovery 400 5 30 meanwhile).0
    ≡ false
claims_exclusive_example =
    claims_exclusive 1 outside.server_order policy.recovery 200 400 10 5 30 30 (open_session queue)
      meanwhile (λ P rows h. h) was_claimed ((λ is. refl), tt) meanwhile-Between (omega arith)

pass_counts_example :
    ((reconcile_once outside policy 200 queue).0.recovered ≤ 10)
    × ((reconcile_once outside policy 200 queue).0.claimed ≤ 10)
    × ((reconcile_once outside policy 200 queue).0.delivered
          + (reconcile_once outside policy 200 queue).0.failed
        ≡ (reconcile_once outside policy 200 queue).0.claimed)
pass_counts_example = pass_counts outside policy 200 queue

-- The broker fails at the third attempt.
answer_settles_example : FindsAnswered 1 100 (mark_delivery_failed 1 100 queue)
answer_settles_example = answer_settles false 1 100 tried queue refl refl (λ id absent. refl)

-- A retry of the job whose dispatch has no attempts left.
abbrev retry : DispatchCall
retry = record {
  id = 2;
  job_type = import_type;
  job_id = 7;
  queue_name = imports_queue;
  max_attempts = 4;
  now = 500;
}

reset_can_be_claimed_example :
    (row : JobDispatch) × (find (is_for retry) (reset_dispatch retry crashed).dispatches ≡ some row)
    × (row.attempts ≡ 0)
    × (is_claimable 500 row ≡ true)
reset_can_be_claimed_example = reset_can_be_claimed retry crashed (ground arith)

claim_due-WithinLimit_example :
    All WithinLimit (claim_due 200 10 30 (open_session queue)).1.current.dispatches
claim_due-WithinLimit_example = claim_due-WithinLimit 200 10 30 queue (refl, tt) (ground arith, tt)
