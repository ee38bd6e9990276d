-- ===== src/Dispatch/Reconciler.antt =====
-- `reconcile_once` of src/arduino_component_kb/dispatch/reconciler.py.
use arduino_component_knowle.Prelude.{ℕ, Bool, true, false, ◌+◌, List, [], ◌∷◌, length}
use arduino_component_knowle.Auth.Domain.{Time}
use arduino_component_knowle.Dispatch.Schema.{Jobs, open_session}
use arduino_component_knowle.Dispatch.Recovery.{
  RecoveryPolicy, ServerOrder, recover_lost_deliveries,
}
use arduino_component_knowle.Dispatch.Repository.{
  DispatchIntent, claim_due, mark_delivered, mark_delivery_failed,
}

pub record ReconcileResult : Type 0 where
  pub recovered : ℕ
  pub claimed : ℕ
  pub delivered : ℕ
  pub failed : ℕ

-- What one pass meets outside: the answer of the broker to each intent (`publish_safely`), and the
-- clock before each publication.
pub record Outside : Type 0 where
  pub server_order : ServerOrder
  pub published : DispatchIntent → Bool
  pub attempt_time : DispatchIntent → Time

-- `settings.job_dispatch_batch_size` and `settings.job_dispatch_claim_lease_seconds`
pub record BatchPolicy : Type 0 where
  pub recovery : RecoveryPolicy
  pub batch_size : ℕ
  pub claim_lease_seconds : ℕ

-- The transaction after one publication, with the counts of deliveries and failures.
unfoldable pub settle_intent : Bool → Time → DispatchIntent → (ℕ × ℕ) × Jobs → (ℕ × ℕ) × Jobs
unfolding mark_delivered mark_delivery_failed
settle_intent true now intent ((delivered, failed), db) =
    ((delivered + 1, failed), mark_delivered intent.id now db)
settle_intent false now intent ((delivered, failed), db) =
    ((delivered, failed + 1), mark_delivery_failed intent.id now db)

unfoldable pub publish_all : Outside → List DispatchIntent → (ℕ × ℕ) × Jobs → (ℕ × ℕ) × Jobs
unfolding settle_intent
publish_all outside [] counted = counted
publish_all outside (intent ∷ intents) counted =
    publish_all outside intents
      (settle_intent (outside.published intent) (outside.attempt_time intent) intent counted)

unfoldable pub reconcile_once : Outside → BatchPolicy → Time → Jobs → ReconcileResult × Jobs
unfolding recover_lost_deliveries claim_due publish_all
reconcile_once outside policy now db =
    let recovery =
      recover_lost_deliveries outside.server_order policy.recovery now policy.batch_size
        (open_session db) in
    let claimed = claim_due now policy.batch_size policy.claim_lease_seconds recovery.1 in
    let settled = publish_all outside claimed.0 ((0, 0), claimed.1.current) in
    (
      record {
        recovered = recovery.0;
        claimed = length claimed.0;
        delivered = settled.0.0;
        failed = settled.0.1;
      },
      settled.1,
    )
