-- ===== src/Dispatch/Undisturbed/Transaction.antt =====
-- The first transaction of a pass, `recover_lost_deliveries` and `claim_due`, beside a dispatch
-- that waits.
use arduino_component_knowle.Prelude.{
  All-take, All-filter_rows, ℕ, ◌-◌, not, map, inl, inr, Bool, true, false, ◌≡◌, List, [], ◌∷◌,
  find, All, arith, ltb, ◌==◌, Bool-cases, ◌-◌, inl, inr, not, map,
}
use arduino_component_knowle.Auth.Domain.{Time, Uuid}
use arduino_component_knowle.Dispatch.Schema.{JobDispatch, LegacyBundle, Session}
use arduino_component_knowle.Dispatch.Writes.{is_legacy, has_bundle_id}
use arduino_component_knowle.Dispatch.Recovery.{
  lost_imports, settle_import, recover_imports, lost_media, settle_media, recover_media,
  ServerOrder, lost_bundles, settle_bundle, recover_bundles, recover_lost_deliveries,
  RecoveryPolicy, and_count, flush_recovered,
}
use arduino_component_knowle.Dispatch.Repository.{
  is_claimable, due_dispatches, claim_due, claim_row, intent_of,
}
use arduino_component_knowle.Dispatch.Rows.{All-join_jobs, for_each_keeps, OnId}
use arduino_component_knowle.Dispatch.Undisturbed.{Undisturbed, Other, OtherIntent, Other-delivered}
use arduino_component_knowle.Dispatch.Undisturbed.Writes.{
  Other-lost_imports, Other-lost_media, Other-due_dispatches, settle_import-keeps,
  settle_media-keeps, settle_bundle-keeps, claim_row-keeps,
}

-- The server returns the rows of the query and no others.
abbrev pub OnlyOrders : ServerOrder → Type 1
OnlyOrders server_order =
    (P : JobDispatch × LegacyBundle → Type 0) (rows : List (JobDispatch × LegacyBundle))
    → All P rows
    → All P (server_order rows)

module _ (id : Uuid) (P : JobDispatch → Type 0) (T : List JobDispatch → Type 0)
    (u : Undisturbed id P T) where
  -- The transaction of a pass: what it has flushed and what it has written.
  pub record InSession (session : Session) : Type 0 where
    pub in_stored : T session.stored.dispatches
    pub in_current : T session.current.dispatches

  pub recover_imports-InSession :
      (stale lease : ℕ) (now : Time) (limit : ℕ) (s : Session)
      → InSession s
      → InSession (recover_imports stale lease now limit s).1
  unfolding recover_imports
  recover_imports-InSession stale lease now limit s h = record {
    in_stored = h.in_stored;
    in_current =
        for_each_keeps (λ t. T t.dispatches) (settle_import now) (settle_import-keeps id P T u now)
          (lost_imports stale lease now limit s.stored) s.current
          (Other-lost_imports id P T u stale lease now limit s.stored h.in_stored) h.in_current;
  }

  pub recover_media-InSession :
      (stale lease : ℕ) (now : Time) (limit : ℕ) (s : Session)
      → InSession s
      → InSession (recover_media stale lease now limit s).1
  unfolding recover_media
  recover_media-InSession stale lease now limit s h = record {
    in_stored = h.in_stored;
    in_current =
        for_each_keeps (λ t. T t.dispatches) (settle_media now) (settle_media-keeps id P T u now)
          (lost_media stale lease now limit s.stored) s.current
          (Other-lost_media id P T u stale lease now limit s.stored h.in_stored) h.in_current;
  }

  pub recover_bundles-InSession :
      (server_order : ServerOrder) (now : Time) (limit : ℕ) (s : Session)
      → OnlyOrders server_order
      → InSession s
      → InSession (recover_bundles server_order now limit s).1
  unfolding recover_bundles lost_bundles
  recover_bundles-InSession server_order now limit s only h = record {
    in_stored = h.in_stored;
    in_current =
        for_each_keeps (λ t. T t.dispatches) (settle_bundle now) (settle_bundle-keeps id P T u now)
          (lost_bundles server_order now limit s.stored) s.current
          (All-take (λ row. Other id row.0) limit _
            (only (λ row. Other id row.0) _
              (All-filter_rows (λ row. Other id row.0) _ _
                (λ row on passes. Other-delivered id P T u row.0 on (ground arith))
                (All-join_jobs (OnId id P) is_legacy
                  (λ job_id. find (has_bundle_id job_id) s.stored.legacy_bundles)
                  s.stored.dispatches (u.holds s.stored.dispatches h.in_stored)))))
          h.in_current;
  }

  pub and_count-InSession :
      (b : Bool) (more : Session → ℕ × Session) (counted : ℕ × Session)
      → ((s : Session) → InSession s → InSession (more s).1)
      → InSession counted.1
      → InSession (and_count b more counted).1
  and_count-InSession true more counted step h = step counted.1 h
  and_count-InSession false more counted step h = h

  pub flush_recovered-InSession :
      (counted : ℕ × Session) → InSession counted.1 → InSession (flush_recovered counted).1
  flush_recovered-InSession counted h = elim (Bool-cases (counted.0 == 0)) [
    | inl e ↦ rw e h
    | inr e ↦ rw e (record { in_stored = h.in_current; in_current = h.in_current })
  ]

  pub recover_lost_deliveries-InSession :
      (server_order : ServerOrder) (policy : RecoveryPolicy) (now : Time) (limit : ℕ) (s : Session)
      → OnlyOrders server_order
      → InSession s
      → InSession (recover_lost_deliveries server_order policy now limit s).1
  unfolding recover_lost_deliveries
  recover_lost_deliveries-InSession server_order policy now limit s only h =
      let stale = policy.stale_delivery_seconds in
      let imports = recover_imports stale policy.import_lease_seconds now limit s in
      let remaining = limit - imports.0 in
      let media = recover_media stale policy.media_lease_seconds now remaining in
      let both = and_count (not (remaining == 0)) media imports in
      let jobs = flush_recovered both in
      and_count-InSession (ltb jobs.0 limit) (recover_bundles server_order now (limit - jobs.0))
        jobs (λ t. recover_bundles-InSession server_order now (limit - jobs.0) t only)
        (flush_recovered-InSession both (
          and_count-InSession (not (remaining == 0)) media imports
            (recover_media-InSession stale policy.media_lease_seconds now remaining)
            (recover_imports-InSession stale policy.import_lease_seconds now limit s h)))

  pub claim_due-InSession :
      (now : Time) (limit lease : ℕ) (s : Session)
      → ((row : JobDispatch) → P row → is_claimable now row ≡ false)
      → InSession s
      → InSession (claim_due now limit lease s).1
  unfolding claim_due
  claim_due-InSession now limit lease s rests h = record {
    in_stored = h.in_stored;
    in_current =
        for_each_keeps (λ t. T t.dispatches) (claim_row now lease)
          (claim_row-keeps id P T u now lease) (due_dispatches now limit s.stored) s.current
          (Other-due_dispatches id P T u now limit s.stored rests h.in_stored) h.in_current;
  }

  pub intents_Other :
      (rows : List JobDispatch) → All (Other id) rows → All (OtherIntent id) (map intent_of rows)
  intents_Other [] h = tt
  intents_Other (row ∷ rows) h = (h.0, intents_Other rows h.1)

  pub claim_due-OtherIntent :
      (now : Time) (limit lease : ℕ) (s : Session)
      → ((row : JobDispatch) → P row → is_claimable now row ≡ false)
      → InSession s
      → All (OtherIntent id) (claim_due now limit lease s).0
  unfolding claim_due
  claim_due-OtherIntent now limit lease s rests h =
      intents_Other (due_dispatches now limit s.stored)
        (Other-due_dispatches id P T u now limit s.stored rests h.in_stored)
