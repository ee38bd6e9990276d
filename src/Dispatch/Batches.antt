-- ===== src/Dispatch/Batches.antt =====
-- The counts of one pass, `reconcile_once` of src/arduino_component_kb/dispatch/reconciler.py.
use arduino_component_knowle.Prelude.{
  length-take, ℕ, suc, ◌+◌, ◌-◌, ◌≤◌, ◌≡◌, refl, ap, Bool, true, false, not, List, [], ◌∷◌, map,
  length, arith, ltb, ◌==◌,
}
use arduino_component_knowle.Auth.Domain.{Time}
use arduino_component_knowle.Dispatch.Schema.{JobDispatch, Jobs, Session, open_session}
use arduino_component_knowle.Dispatch.Recovery.{
  ServerOrder, RecoveryPolicy, lost_imports, recover_imports, lost_media, recover_media,
  lost_bundles, recover_bundles, and_count, flush_recovered, recover_lost_deliveries,
}
use arduino_component_knowle.Dispatch.Repository.{
  DispatchIntent, due_dispatches, claim_due, intent_of,
}
use arduino_component_knowle.Dispatch.Reconciler.{
  Outside, BatchPolicy, settle_intent, publish_all, reconcile_once,
}

recover_imports-le :
    (stale lease : ℕ) (now : Time) (limit : ℕ) (s : Session)
    → (recover_imports stale lease now limit s).0 ≤ limit
unfolding recover_imports lost_imports
recover_imports-le stale lease now limit s = length-take limit _

recover_media-le :
    (stale lease : ℕ) (now : Time) (limit : ℕ) (s : Session)
    → (recover_media stale lease now limit s).0 ≤ limit
unfolding recover_media lost_media
recover_media-le stale lease now limit s = length-take limit _

recover_bundles-le :
    (server_order : ServerOrder) (now : Time) (limit : ℕ) (s : Session)
    → (recover_bundles server_order now limit s).0 ≤ limit
unfolding recover_bundles lost_bundles
recover_bundles-le server_order now limit s = length-take limit _

-- A further query for what is left of the limit.
and_count-le :
    (b : Bool) (more : Session → ℕ × Session) (counted : ℕ × Session) (limit : ℕ)
    → ((s : Session) → (more s).0 ≤ limit - counted.0)
    → counted.0 ≤ limit
    → (and_count b more counted).0 ≤ limit
and_count-le true more counted limit le h = let m = le counted.1 in ground arith
and_count-le false more counted limit le h = h

recover_lost_deliveries-le :
    (server_order : ServerOrder) (policy : RecoveryPolicy) (now : Time) (limit : ℕ) (s : Session)
    → (recover_lost_deliveries server_order policy now limit s).0 ≤ limit
unfolding recover_lost_deliveries
recover_lost_deliveries-le server_order policy now limit s =
    let stale = policy.stale_delivery_seconds in
    let imports = recover_imports stale policy.import_lease_seconds now limit s in
    let remaining = limit - imports.0 in
    let media = recover_media stale policy.media_lease_seconds now remaining in
    let both = and_count (not (remaining == 0)) media imports in
    let jobs = flush_recovered both in
    and_count-le (ltb jobs.0 limit) (recover_bundles server_order now (limit - jobs.0)) jobs limit
      (recover_bundles-le server_order now (limit - jobs.0))
      (and_count-le (not (remaining == 0)) media imports limit
        (recover_media-le stale policy.media_lease_seconds now remaining)
        (recover_imports-le stale policy.import_lease_seconds now limit s))

length-map : (rows : List JobDispatch) → length (map intent_of rows) ≡ length rows
length-map [] = refl
length-map (row ∷ rows) = ap suc (length-map rows)

claim_due-le :
    (now : Time) (limit lease : ℕ) (s : Session) → length (claim_due now limit lease s).0 ≤ limit
unfolding claim_due due_dispatches
claim_due-le now limit lease s = rw (length-map _) (length-take limit _)

settle_intent-suc :
    (answer : Bool) (now : Time) (intent : DispatchIntent) (counted : (ℕ × ℕ) × Jobs)
    → (settle_intent answer now intent counted).0.0 + (settle_intent answer now intent counted).0.1
      ≡ suc (counted.0.0 + counted.0.1)
unfolding settle_intent
settle_intent-suc true now intent ((d, f), db) = ground arith
settle_intent-suc false now intent ((d, f), db) = ground arith

publish_all-add :
    (outside : Outside) (intents : List DispatchIntent) (counted : (ℕ × ℕ) × Jobs)
    → (publish_all outside intents counted).0.0 + (publish_all outside intents counted).0.1
      ≡ counted.0.0 + counted.0.1 + length intents
unfolding publish_all
publish_all-add outside [] counted = ground arith
publish_all-add outside (intent ∷ intents) counted =
    let answer = outside.published intent in
    let now = outside.attempt_time intent in
    let rest = publish_all-add outside intents (settle_intent answer now intent counted) in
    let one = settle_intent-suc answer now intent counted in ground arith

publish_all-length :
    (outside : Outside) (intents : List DispatchIntent) (db : Jobs)
    → (publish_all outside intents ((0, 0), db)).0.0
        + (publish_all outside intents ((0, 0), db)).0.1
      ≡ length intents
publish_all-length outside intents db =
    let e = publish_all-add outside intents ((0, 0), db) in ground arith

-- A pass recovers and claims no more than the batch size each, and every claimed dispatch is counted
-- once, as delivered or as failed.
pub pass_counts :
    (outside : Outside) (policy : BatchPolicy) (now : Time) (db : Jobs)
    → ((reconcile_once outside policy now db).0.recovered ≤ policy.batch_size)
      × ((reconcile_once outside policy now db).0.claimed ≤ policy.batch_size)
      × ((reconcile_once outside policy now db).0.delivered
            + (reconcile_once outside policy now db).0.failed
          ≡ (reconcile_once outside policy now db).0.claimed)
unfolding reconcile_once
pass_counts outside policy now db =
    let recovery =
      recover_lost_deliveries outside.server_order policy.recovery now policy.batch_size
        (open_session db) in
    let claimed = claim_due now policy.batch_size policy.claim_lease_seconds recovery.1 in
    (
      recover_lost_deliveries-le outside.server_order policy.recovery now policy.batch_size
          (open_session db),
      claim_due-le now policy.batch_size policy.claim_lease_seconds recovery.1,
      publish_all-length outside claimed.0 claimed.1.current,
    )
