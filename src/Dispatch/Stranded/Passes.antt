-- ===== src/Dispatch/Stranded/Passes.antt =====
-- A whole pass of the reconciler beside a stranded dispatch.
use arduino_component_knowle.Prelude.{arith}
use arduino_component_knowle.Auth.Domain.{Time, Uuid}
use arduino_component_knowle.Dispatch.Schema.{Jobs, open_session}
use arduino_component_knowle.Dispatch.Recovery.{recover_lost_deliveries}
use arduino_component_knowle.Dispatch.Repository.{claim_due}
use arduino_component_knowle.Dispatch.Reconciler.{Outside, BatchPolicy, reconcile_once}
use arduino_component_knowle.Dispatch.Rows.{Row, Row-update}
use arduino_component_knowle.Dispatch.Stranded.{Spent, Stranded}
use arduino_component_knowle.Dispatch.Undisturbed.{Undisturbed}
use arduino_component_knowle.Dispatch.Undisturbed.Transaction.{
  OnlyOrders, InSession, recover_lost_deliveries-InSession, claim_due-InSession,
  claim_due-OtherIntent,
}
use arduino_component_knowle.Dispatch.Undisturbed.Answers.{publish_all-keeps}

module _ (id : Uuid) where
  Spent-Undisturbed : Undisturbed id Spent (Row id Spent)
  Spent-Undisturbed = record {
    holds = λ dispatches row. row.holds;
    waits = λ row spent. spent.waits;
    after_write =
        λ other f ne same dispatches row. Row-update Spent id other f ne same dispatches row;
  }

  -- A dispatch that is pending with its attempts used up is passed over by every pass of the
  -- reconciler, at any time, whatever the broker answers: it is pending with its attempts used up
  -- after the pass. The server returns to the query on
  -- legacy bundles only rows of its result.
  pub exhausted_is_passed_over :
      (outside : Outside) (policy : BatchPolicy) (now : Time) (db : Jobs)
      → OnlyOrders outside.server_order
      → Stranded id db
      → Stranded id (reconcile_once outside policy now db).1
  unfolding reconcile_once
  exhausted_is_passed_over outside policy now db only h =
      let recovery =
        recover_lost_deliveries outside.server_order policy.recovery now policy.batch_size
          (open_session db) in
      let start : InSession id Spent (Row id Spent) Spent-Undisturbed (open_session db) = record {
        in_stored = h;
        in_current = h;
      } in
      let recovered =
        recover_lost_deliveries-InSession id Spent (Row id Spent) Spent-Undisturbed
          outside.server_order policy.recovery now policy.batch_size (open_session db) only start in
      let claimed = claim_due now policy.batch_size policy.claim_lease_seconds recovery.1 in
      publish_all-keeps id Spent (Row id Spent) Spent-Undisturbed outside claimed.0
        ((0, 0), claimed.1.current)
        (claim_due-OtherIntent id Spent (Row id Spent) Spent-Undisturbed now policy.batch_size
          policy.claim_lease_seconds recovery.1
          (λ row spent. let full = spent.exhausted in ground arith) recovered)
        (claim_due-InSession id Spent (Row id Spent) Spent-Undisturbed now policy.batch_size
          policy.claim_lease_seconds recovery.1
          (λ row spent. let full = spent.exhausted in ground arith) recovered).in_current
