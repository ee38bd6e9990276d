-- ===== src/Dispatch/Attempts.antt =====
-- The bound on attempts (`ck_job_dispatches_attempt_bound` of
-- src/arduino_component_kb/dispatch/models.py) and `claim_due`.
use arduino_component_knowle.Prelude.{
  take, order_by, insert_by, All-take, All-insert_by, All-order_by, All-filter_rows, zero, suc, ℕ,
  ◌≤◌, ◌<◌, ◌≡◌, inl, inr, Bool, true, false, List, [], ◌∷◌, any, filter_rows, update_where, All,
  Distinct, arith, ◌==◌, Bool-cases,
}
use arduino_component_knowle.Auth.Domain.{Time}
use arduino_component_knowle.Dispatch.Schema.{JobDispatch, Jobs, open_session}
use arduino_component_knowle.Dispatch.Writes.{has_dispatch_id}
use arduino_component_knowle.Dispatch.Recovery.{for_each}
use arduino_component_knowle.Dispatch.Repository.{
  due_dispatches, is_claimable, due_before, claim, claim_row, claim_due,
}
use arduino_component_knowle.Dispatch.Rows.{OnId}

abbrev pub WithinLimit : JobDispatch → Type 0
WithinLimit dispatch = dispatch.attempts ≤ dispatch.max_attempts

abbrev HasRoom : JobDispatch → Type 0
HasRoom dispatch = dispatch.attempts < dispatch.max_attempts

abbrev pub same_dispatch : JobDispatch → JobDispatch → Bool
same_dispatch a b = a.id == b.id

-- Pairwise different identifiers, whatever the query does with the rows.
abbrev Apart : JobDispatch → JobDispatch → Type 0
Apart a b = same_dispatch a b ≡ false

All-Apart :
    (row : JobDispatch) (rows : List JobDispatch)
    → any (same_dispatch row) rows ≡ false
    → All (Apart row) rows
All-Apart row [] h = tt
All-Apart row (d ∷ rest) h = (ground arith, All-Apart row rest (ground arith))

abbrev Pairwise : List JobDispatch → Type 0
Pairwise [] = Unit
Pairwise (row ∷ rows) = All (Apart row) rows × Pairwise rows

Distinct-Pairwise : (rows : List JobDispatch) → Distinct same_dispatch rows → Pairwise rows
Distinct-Pairwise [] h = tt
Distinct-Pairwise (row ∷ rows) h = (All-Apart row rows h.0, Distinct-Pairwise rows h.1)

Pairwise-take : (n : ℕ) (rows : List JobDispatch) → Pairwise rows → Pairwise (take n rows)
Pairwise-take zero rows h = tt
Pairwise-take (suc n) [] h = tt
Pairwise-take (suc n) (row ∷ rows) h = (All-take (Apart row) n rows h.0, Pairwise-take n rows h.1)

Pairwise-filter :
    (p : JobDispatch → Bool) (rows : List JobDispatch)
    → Pairwise rows
    → Pairwise (filter_rows p rows)
Pairwise-filter p [] h = tt
Pairwise-filter p (row ∷ rows) h = elim (Bool-cases (p row)) [
  | inl e ↦ rw e (All-filter_rows (Apart row) p rows (λ d a _. a) h.0, Pairwise-filter p rows h.1)
  | inr e ↦ rw e (Pairwise-filter p rows h.1)
]

Apart-sym : (a b : JobDispatch) → Apart a b → Apart b a
Apart-sym a b h = ground arith

Pairwise-insert_by :
    (before : JobDispatch → JobDispatch → Bool) (new : JobDispatch) (rows : List JobDispatch)
    → All (Apart new) rows
    → Pairwise rows
    → Pairwise (insert_by before new rows)
Pairwise-insert_by before new [] a h = (tt, tt)
Pairwise-insert_by before new (row ∷ rows) a h = elim (Bool-cases (before row new)) [
  | inl e ↦ rw e (
    All-insert_by (Apart row) before new rows (Apart-sym new row a.0) h.0,
    Pairwise-insert_by before new rows a.1 h.1,
  )
  | inr e ↦ rw e (a, h)
]

Pairwise-order_by :
    (before : JobDispatch → JobDispatch → Bool) (rows : List JobDispatch)
    → Pairwise rows
    → Pairwise (order_by before rows)
Pairwise-order_by before [] h = tt
Pairwise-order_by before (row ∷ rows) h =
    Pairwise-insert_by before row (order_by before rows) (All-order_by (Apart row) before rows h.0)
      (Pairwise-order_by before rows h.1)

-- The rows of the table with the identifier of a row that is to be claimed can take a claim.
abbrev Claimable : List JobDispatch → JobDispatch → Type 0
Claimable dispatches row = All (OnId row.id HasRoom) dispatches

module _ (now : Time) (lease : ℕ) where
  claim-WithinLimit :
      (row : JobDispatch) (dispatches : List JobDispatch)
      → Claimable dispatches row
      → All WithinLimit dispatches
      → All WithinLimit (update_where (has_dispatch_id row.id) (claim now lease) dispatches)
  unfolding claim
  claim-WithinLimit row [] c h = tt
  claim-WithinLimit row (d ∷ rest) c h = elim (Bool-cases (d.id == row.id)) [
    | inl e ↦ rw e (let room = c.0 e in (ground arith, claim-WithinLimit row rest c.1 h.1))
    | inr e ↦ rw e (h.0, claim-WithinLimit row rest c.1 h.1)
  ]

  claim-Claimable :
      (row other : JobDispatch) (dispatches : List JobDispatch)
      → Apart row other
      → Claimable dispatches other
      → Claimable (update_where (has_dispatch_id row.id) (claim now lease) dispatches) other
  unfolding claim
  claim-Claimable row other [] a c = tt
  claim-Claimable row other (d ∷ rest) a c = elim (Bool-cases (d.id == row.id)) [
    | inl e ↦ rw e ((λ is. ground arith), claim-Claimable row other rest a c.1)
    | inr e ↦ rw e (c.0, claim-Claimable row other rest a c.1)
  ]

  All-Claimable :
      (row : JobDispatch) (rows dispatches : List JobDispatch)
      → All (Apart row) rows
      → All (Claimable dispatches) rows
      → All (Claimable (update_where (has_dispatch_id row.id) (claim now lease) dispatches)) rows
  All-Claimable row [] dispatches a c = tt
  All-Claimable row (other ∷ rows) dispatches a c =
      (claim-Claimable row other dispatches a.0 c.0, All-Claimable row rows dispatches a.1 c.1)

  claims-WithinLimit :
      (rows : List JobDispatch) (db : Jobs)
      → Pairwise rows
      → All (Claimable db.dispatches) rows
      → All WithinLimit db.dispatches
      → All WithinLimit (for_each (claim_row now lease) rows db).dispatches
  claims-WithinLimit [] db p c h = h
  claims-WithinLimit (row ∷ rows) db p c h =
      claims-WithinLimit rows (claim_row now lease row db) p.1
        (All-Claimable row rows db.dispatches p.0 c.1) (claim-WithinLimit row db.dispatches c.0 h)

alone :
    (row : JobDispatch) (rest : List JobDispatch)
    → All (Apart row) rest
    → All (OnId row.id HasRoom) rest
alone row [] a = tt
alone row (d ∷ rest) a = (λ is. (let x = a.0 in ground arith), alone row rest a.1)

module _ (now : Time) where
  abbrev MayBeClaimed : List JobDispatch → JobDispatch → Type 0
  MayBeClaimed dispatches row = is_claimable now row ≡ true → Claimable dispatches row

  one_more :
      (row : JobDispatch) (rest rows : List JobDispatch)
      → All (Apart row) rows
      → All (MayBeClaimed rest) rows
      → All (MayBeClaimed (row ∷ rest)) rows
  one_more row rest [] a h = tt
  one_more row rest (d ∷ rows) a h =
      (λ c. (λ is. (let x = a.0 in ground arith), h.0 c), one_more row rest rows a.1 h.1)

  -- In a table with distinct identifiers, a row is alone under its identifier.
  All-MayBeClaimed : (rows : List JobDispatch) → Pairwise rows → All (MayBeClaimed rows) rows
  All-MayBeClaimed [] h = tt
  All-MayBeClaimed (row ∷ rest) h = (
    λ c. (λ is. ground arith, alone row rest h.0),
    one_more row rest rest h.0 (All-MayBeClaimed rest h.1),
  )

  due-Pairwise :
      (limit : ℕ) (db : Jobs) → Pairwise db.dispatches → Pairwise (due_dispatches now limit db)
  unfolding due_dispatches
  due-Pairwise limit db p =
      Pairwise-take limit _
        (Pairwise-order_by due_before _ (Pairwise-filter (is_claimable now) db.dispatches p))

  due-Claimable :
      (limit : ℕ) (db : Jobs)
      → Pairwise db.dispatches
      → All (Claimable db.dispatches) (due_dispatches now limit db)
  unfolding due_dispatches
  due-Claimable limit db p = All-take (Claimable db.dispatches) limit _ (
      All-order_by (Claimable db.dispatches) due_before _ (
        All-filter_rows (Claimable db.dispatches) (is_claimable now) db.dispatches
          (λ row may is. may is) (All-MayBeClaimed db.dispatches p)))

-- A claim on a table with distinct identifiers, where no dispatch has more attempts than it may,
-- leaves no dispatch with more attempts than it may: the check constraint of the table holds.
pub claim_due-WithinLimit :
    (now : Time) (limit lease : ℕ) (db : Jobs)
    → Distinct same_dispatch db.dispatches
    → All WithinLimit db.dispatches
    → All WithinLimit (claim_due now limit lease (open_session db)).1.current.dispatches
unfolding claim_due
claim_due-WithinLimit now limit lease db distinct h =
    let p = Distinct-Pairwise db.dispatches distinct in
    claims-WithinLimit now lease (due_dispatches now limit db) db (due-Pairwise now limit db p)
      (due-Claimable now limit db p) h
