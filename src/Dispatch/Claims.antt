-- ===== src/Dispatch/Claims.antt =====
-- `claim_due` of src/arduino_component_kb/dispatch/repository.py, and a second claim before the
-- lease of the first has ended.
use arduino_component_knowle.Prelude.{
  ℕ, ◌+◌, ◌≤◌, ◌<◌, ◌≡◌, inl, inr, true, false, List, [], ◌∷◌, any, map, update_where, All, arith,
  ◌==◌, Bool-cases,
}
use arduino_component_knowle.Auth.Domain.{Time, Uuid}
use arduino_component_knowle.Auth.Throttle.{seconds}
use arduino_component_knowle.Dispatch.Schema.{JobDispatch, Jobs, Session}
use arduino_component_knowle.Dispatch.Writes.{has_dispatch_id}
use arduino_component_knowle.Dispatch.Recovery.{for_each, ServerOrder, RecoveryPolicy}
use arduino_component_knowle.Dispatch.Repository.{
  due_dispatches, claim, claim_row, claim_due, intent_of,
}
use arduino_component_knowle.Dispatch.Rows.{for_each_keeps, OnId}
use arduino_component_knowle.Dispatch.Undisturbed.Transaction.{OnlyOrders}
use arduino_component_knowle.Dispatch.Between.{
  IsPending, recover_and_claim, Between, Rested, between-Rested, not_claimed,
}

-- Not due before the given time.
abbrev pub RestsUntil : Time → JobDispatch → Type 0
RestsUntil until row = until ≤ row.next_attempt_at

module _ (id : Uuid) (now : Time) (lease : ℕ) where
  -- A claim keeps what earlier claims of the same transaction wrote.
  claim-OnId :
      (other : Uuid) (rows : List JobDispatch)
      → All (OnId id (RestsUntil (now + seconds lease))) rows
      → All
          (OnId id (RestsUntil (now + seconds lease)))
          (update_where (has_dispatch_id other) (claim now lease) rows)
  unfolding claim
  claim-OnId other [] h = tt
  claim-OnId other (row ∷ rows) h = elim (Bool-cases (row.id == other)) [
    | inl e ↦ rw e ((λ is. ground arith), claim-OnId other rows h.1)
    | inr e ↦ rw e (h.0, claim-OnId other rows h.1)
  ]

  own_claim-OnId :
      (rows : List JobDispatch)
      → All
          (OnId id (RestsUntil (now + seconds lease)))
          (update_where (has_dispatch_id id) (claim now lease) rows)
  unfolding claim
  own_claim-OnId [] = tt
  own_claim-OnId (row ∷ rows) = elim (Bool-cases (row.id == id)) [
    | inl e ↦ rw e ((λ is. ground arith), own_claim-OnId rows)
    | inr e ↦ rw e ((λ is. cc), own_claim-OnId rows)
  ]

units : (rows : List JobDispatch) → All (λ _. Unit {0}) rows
units [] = tt
units (row ∷ rows) = (tt, units rows)

-- Every claimed row rests until the lease ends.
claimed-OnId :
    (now : Time) (lease : ℕ) (rows : List JobDispatch) (db : Jobs)
    → All
        (λ row.
          All
            (OnId row.id (RestsUntil (now + seconds lease)))
            (for_each (claim_row now lease) rows db).dispatches)
        rows
claimed-OnId now lease [] db = tt
claimed-OnId now lease (row ∷ rows) db = (
  for_each_keeps {Q = λ _. Unit}
      (λ t. All (OnId row.id (RestsUntil (now + seconds lease))) t.dispatches) (claim_row now lease)
      (λ other t _ h. claim-OnId row.id now lease other.id t.dispatches h) rows
      (claim_row now lease row db) (units rows) (own_claim-OnId row.id now lease db.dispatches),
  claimed-OnId now lease rows (claim_row now lease row db),
)

-- A claim leaves the status.
claim-IsPending :
    (id other : Uuid) (now : Time) (lease : ℕ) (rows : List JobDispatch)
    → All (OnId id IsPending) rows
    → All (OnId id IsPending) (update_where (has_dispatch_id other) (claim now lease) rows)
unfolding claim
claim-IsPending id other now lease [] h = tt
claim-IsPending id other now lease (row ∷ rows) h = elim (Bool-cases (row.id == other)) [
  | inl e ↦ rw e (h.0, claim-IsPending id other now lease rows h.1)
  | inr e ↦ rw e (h.0, claim-IsPending id other now lease rows h.1)
]

both :
    (id : Uuid) (until : Time) (rows : List JobDispatch)
    → All (OnId id IsPending) rows
    → All (OnId id (RestsUntil until)) rows
    → Rested id until rows
both id until [] p r = tt
both id until (row ∷ rows) p r =
    (λ is. record { waits = p.0 is; rests = r.0 is }, both id until rows p.1 r.1)

same_id :
    (id other : Uuid) (until : Time) (rows : List JobDispatch)
    → (other == id) ≡ true
    → All (OnId other (RestsUntil until)) rows
    → All (OnId id (RestsUntil until)) rows
same_id id other until [] e h = tt
same_id id other until (row ∷ rows) e h =
    ((λ is. h.0 (ground arith)), same_id id other until rows e h.1)

claimed_one :
    (id : Uuid) (until : Time) (rows dispatches : List JobDispatch)
    → any (λ intent. intent.id == id) (map intent_of rows) ≡ true
    → All (λ row. All (OnId row.id (RestsUntil until)) dispatches) rows
    → All (OnId id (RestsUntil until)) dispatches
claimed_one id until [] dispatches e h = absurd cc
claimed_one id until (row ∷ rows) dispatches e h = elim (Bool-cases (row.id == id)) [
  | inl is ↦ same_id id row.id until dispatches is h.0
  | inr n ↦ claimed_one id until rows dispatches (ground arith) h.1
]

-- A dispatch that a transaction has claimed, and that is pending in it, is not claimed again before
-- the lease has ended, as long as nobody answers for it or restarts its job. In between there may be
-- any recoveries and claims of any reconcilers before the lease has ended, answers for other
-- dispatches, new dispatches, and restarts of other jobs. The server returns to the query on legacy
-- bundles only rows of its result.
pub claims_exclusive :
    (id : Uuid) (server_order : ServerOrder) (policy : RecoveryPolicy) (now now' : Time)
    (limit limit' lease lease' : ℕ) (session : Session) (later : Jobs)
    → OnlyOrders server_order
    → any (λ intent. intent.id == id) (claim_due now limit lease session).0 ≡ true
    → All (OnId id IsPending) session.current.dispatches
    → Between server_order id
        (now + seconds lease)
        (claim_due now limit lease session).1.current
        later
    → now' < now + seconds lease
    → any
        (λ again. again.id == id)
        (recover_and_claim server_order policy now' limit' lease' later).0
      ≡ false
unfolding claim_due
claims_exclusive id server_order policy now now' limit limit' lease lease' session later only first
      waits between before =
    let rows = due_dispatches now limit session.stored in
    let until = now + seconds lease in
    let after = for_each (claim_row now lease) rows session.current in
    let pending =
      for_each_keeps {Q = λ _. Unit} (λ t. All (OnId id IsPending) t.dispatches)
        (claim_row now lease) (λ other t _ h. claim-IsPending id other.id now lease t.dispatches h)
        rows session.current (units rows) waits in
    let resting = both id until after.dispatches pending (
      claimed_one id until rows after.dispatches first
        (claimed-OnId now lease rows session.current)) in
    not_claimed id until server_order only policy now' limit' lease' later before
      (between-Rested id until server_order only between resting)
