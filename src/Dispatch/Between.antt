-- ===== src/Dispatch/Between.antt =====
-- The transactions between two claims of src/arduino_component_kb/dispatch/repository.py, beside a
-- dispatch that the first of them has claimed.
use arduino_component_knowle.Prelude.{
  ℕ, ◌≤◌, ◌<◌, ◌≡◌, refl, inl, inr, true, false, some, List, [], ◌∷◌, any, find, All, arith, ◌==◌,
  Bool-cases, Option-cases, some-eq,
}
use arduino_component_knowle.Auth.Domain.{Time, Uuid}
use arduino_component_knowle.Auth.Grants.Current.{All-append}
use arduino_component_knowle.Dispatch.Schema.{JobDispatch, Jobs, Session, open_session}
use arduino_component_knowle.Dispatch.Writes.{is_pending}
use arduino_component_knowle.Dispatch.Recovery.{
  ServerOrder, RecoveryPolicy, recover_lost_deliveries,
}
use arduino_component_knowle.Dispatch.Repository.{
  DispatchIntent, DispatchCall, claim_due, is_claimable, is_for, restart, new_dispatch,
  add_dispatch, reset_dispatch, mark_delivered, mark_delivery_failed,
}
use arduino_component_knowle.Dispatch.Rows.{OnId, other_holds}
use arduino_component_knowle.Dispatch.Undisturbed.{Undisturbed, OtherIntent}
use arduino_component_knowle.Dispatch.Undisturbed.Transaction.{
  OnlyOrders, InSession, recover_lost_deliveries-InSession, claim_due-InSession,
  claim_due-OtherIntent,
}
use arduino_component_knowle.Dispatch.Undisturbed.Answers.{
  mark_delivered-keeps, mark_delivery_failed-keeps,
}

-- Pending, and not due before the given time.
pub record Resting (until : Time) (row : JobDispatch) : Type 0 where
  pub waits : is_pending row.status ≡ true
  pub rests : until ≤ row.next_attempt_at

abbrev pub IsPending : JobDispatch → Type 0
IsPending row = is_pending row.status ≡ true

-- The first transaction of a pass of a reconciler, what it claims and its session.
abbrev pub recover_and_claim :
    ServerOrder → RecoveryPolicy → Time → ℕ → ℕ → Jobs → List DispatchIntent × Session
recover_and_claim server_order policy now limit lease db =
    claim_due now limit lease
      (recover_lost_deliveries server_order policy now limit (open_session db)).1

-- Transactions in which nobody answers for the dispatch `id` or restarts it, and every claim comes
-- before `until`.
pub data Between (server_order : ServerOrder) (id : Uuid) (until : Time)
    : Jobs → Jobs → Type 0 where
  none_more : {db : Jobs} → Between server_order id until db db
  claimed :
      {db last : Jobs} (policy : RecoveryPolicy) (now : Time) (limit lease : ℕ)
      → now < until
      → Between server_order id until
          (recover_and_claim server_order policy now limit lease db).1.current
          last
      → Between server_order id until db last
  answered_delivered :
      {db last : Jobs} (other : Uuid) (now : Time)
      → (other == id) ≡ false
      → Between server_order id until (mark_delivered other now db) last
      → Between server_order id until db last
  answered_failed :
      {db last : Jobs} (other : Uuid) (now : Time)
      → (other == id) ≡ false
      → Between server_order id until (mark_delivery_failed other now db) last
      → Between server_order id until db last
  dispatched :
      {db last : Jobs} (call : DispatchCall)
      → (call.id == id) ≡ false
      → Between server_order id until (add_dispatch call db) last
      → Between server_order id until db last
  restarted :
      {db last : Jobs} (call : DispatchCall)
      → (call.id == id) ≡ false
      → All (OnId id (λ row. is_for call row ≡ false)) db.dispatches
      → Between server_order id until (reset_dispatch call db) last
      → Between server_order id until db last

found_Other :
    (id : Uuid) (call : DispatchCall) (dispatches : List JobDispatch) (row : JobDispatch)
    → All (OnId id (λ d. is_for call d ≡ false)) dispatches
    → find (is_for call) dispatches ≡ some row
    → (row.id == id) ≡ false
found_Other id call [] row h e = absurd cc
found_Other id call (d ∷ rest) row h e = elim (Bool-cases (is_for call d)) [
  | inl f ↦ elim (Bool-cases (d.id == id)) [
    | inl t ↦ absurd (let no = h.0 t in cc)
    | inr n ↦ (let same = some-eq (rw f at e) in rw (← same) n)
  ]
  | inr f ↦ ground (arith, found_Other id call rest row h.1)
]

module _ (id : Uuid) (until : Time) where
  abbrev pub Rested : List JobDispatch → Type 0
  Rested = All (OnId id (Resting until))

  Rested-Undisturbed : Undisturbed id (Resting until) Rested
  Rested-Undisturbed = record {
    holds = λ dispatches h. h;
    waits = λ row r. r.waits;
    after_write =
        λ other f ne same dispatches h. other_holds (Resting until) id other f ne same dispatches h;
  }

  not_due :
      (now : Time)
      → now < until
      → (row : JobDispatch) → Resting until row
      → is_claimable now row ≡ false
  not_due now before row r = let late = r.rests in ground arith

  add-Rested :
      (call : DispatchCall) (db : Jobs)
      → (call.id == id) ≡ false
      → Rested db.dispatches
      → Rested (add_dispatch call db).dispatches
  unfolding add_dispatch
  add-Rested call db ne h =
      All-append (OnId id (Resting until)) db.dispatches (new_dispatch call ∷ []) h
        ((λ is. absurd (cc)), tt)

  reset-Rested :
      (call : DispatchCall) (db : Jobs)
      → (call.id == id) ≡ false
      → All (OnId id (λ row. is_for call row ≡ false)) db.dispatches
      → Rested db.dispatches
      → Rested (reset_dispatch call db).dispatches
  unfolding reset_dispatch
  reset-Rested call db ne apart h = elim (Option-cases (find (is_for call) db.dispatches)) [
    | inl e ↦ rw (e, reset_dispatch) (add-Rested call db ne h)
    | inr (row, e) ↦
        rw (e, reset_dispatch)
          (other_holds (Resting until) id row.id (restart call)
            (found_Other id call db.dispatches row apart e) (λ d. refl) db.dispatches h)
  ]

  module _ (server_order : ServerOrder) (only : OnlyOrders server_order) where
    start-InSession :
        (policy : RecoveryPolicy) (now : Time) (limit : ℕ) (db : Jobs)
        → Rested db.dispatches
        → InSession id
            (Resting until)
            Rested
            Rested-Undisturbed
            (recover_lost_deliveries server_order policy now limit (open_session db)).1
    start-InSession policy now limit db h =
        recover_lost_deliveries-InSession id (Resting until) Rested Rested-Undisturbed server_order
          policy now limit (open_session db) only (record { in_stored = h; in_current = h })

    pub between-Rested :
        {db last : Jobs}
        → Between server_order id until db last
        → Rested db.dispatches
        → Rested last.dispatches
    between-Rested none_more h = h
    between-Rested (claimed {db = db} policy now limit lease before rest) h =
        between-Rested rest
          (claim_due-InSession id (Resting until) Rested Rested-Undisturbed now limit lease
            (recover_lost_deliveries server_order policy now limit (open_session db)).1
            (not_due now before) (start-InSession policy now limit db h)).in_current
    between-Rested (answered_delivered {db = db} other now ne rest) h =
        between-Rested rest
          (mark_delivered-keeps id (Resting until) Rested Rested-Undisturbed other now db ne h)
    between-Rested (answered_failed {db = db} other now ne rest) h =
        between-Rested rest (
          mark_delivery_failed-keeps id (Resting until) Rested Rested-Undisturbed other now db ne h)
    between-Rested (dispatched {db = db} call ne rest) h =
        between-Rested rest (add-Rested call db ne h)
    between-Rested (restarted {db = db} call ne apart rest) h =
        between-Rested rest (reset-Rested call db ne apart h)

    none_again :
        (intents : List DispatchIntent)
        → All (OtherIntent id) intents
        → any (λ intent. intent.id == id) intents ≡ false
    none_again [] h = refl
    none_again (intent ∷ intents) h = rw (h.0, none_again intents h.1)

    pub not_claimed :
        (policy : RecoveryPolicy) (now : Time) (limit lease : ℕ) (db : Jobs)
        → now < until
        → Rested db.dispatches
        → any
            (λ intent. intent.id == id)
            (recover_and_claim server_order policy now limit lease db).0
          ≡ false
    not_claimed policy now limit lease db before h =
        none_again (recover_and_claim server_order policy now limit lease db).0 (
          claim_due-OtherIntent id (Resting until) Rested Rested-Undisturbed now limit lease
            (recover_lost_deliveries server_order policy now limit (open_session db)).1
            (not_due now before) (start-InSession policy now limit db h))
