-- ===== src/Dispatch/Rows.antt =====
-- What holds of the rows of a query, and of the dispatch table after a write to one row.
use arduino_component_knowle.Prelude.{
  ◌≡◌, refl, sym, ◌∙◌, inl, inr, Bool, true, false, Option, none, some, List, [], ◌∷◌, any, find,
  update_where, All, arith, ◌==◌, Bool-cases,
}
use arduino_component_knowle.Auth.Domain.{Uuid}
use arduino_component_knowle.Auth.Grants.Current.{All-append}
use arduino_component_knowle.Dispatch.Schema.{JobType, JobDispatch, Jobs}
use arduino_component_knowle.Dispatch.Queries.{join_jobs, with_job}
use arduino_component_knowle.Dispatch.Writes.{has_dispatch_id}
use arduino_component_knowle.Dispatch.Recovery.{for_each}

module _ {J : Type 0} (P : JobDispatch → Type 0) where
  All-with_job :
      (dispatch : JobDispatch) (found : Option J)
      → P dispatch
      → All (λ row. P row.0) (with_job dispatch found)
  All-with_job dispatch none p = tt
  All-with_job dispatch (some job) p = (p, tt)

  pub All-join_jobs :
      (of_type : JobType → Bool) (lookup : Uuid → Option J) (dispatches : List JobDispatch)
      → All P dispatches
      → All (λ row. P row.0) (join_jobs of_type lookup dispatches)
  All-join_jobs of_type lookup [] h = tt
  All-join_jobs of_type lookup (dispatch ∷ rest) h = elim (Bool-cases (of_type dispatch.job_type)) [
    | inl e ↦ rw e (
        All-append (λ row. P row.0) (with_job dispatch (lookup dispatch.job_id))
          (join_jobs of_type lookup rest) (All-with_job dispatch (lookup dispatch.job_id) h.0)
          (All-join_jobs of_type lookup rest h.1))
    | inr e ↦ rw e (All-join_jobs of_type lookup rest h.1)
  ]

-- A loop keeps what each turn keeps.
pub for_each_keeps :
    {A : Type 0} {Q : A → Type 0} (P : Jobs → Type 0) (body : A → Jobs → Jobs)
    → ((row : A) (db : Jobs) → Q row → P db → P (body row db))
    → (rows : List A) (db : Jobs) → All Q rows
    → P db
    → P (for_each body rows db)
for_each_keeps P body step [] db q p = p
for_each_keeps P body step (row ∷ rows) db q p =
    for_each_keeps P body step rows (body row db) q.1 (step row db q.0 p)

-- The row with the identifier, if it is there, satisfies the predicate.
abbrev pub OnId : Uuid → (JobDispatch → Type 0) → JobDispatch → Type 0
OnId id P dispatch = (dispatch.id == id) ≡ true → P dispatch

pub record Row (id : Uuid) (P : JobDispatch → Type 0) (dispatches : List JobDispatch) : Type 0 where
  pub present : any (has_dispatch_id id) dispatches ≡ true
  pub holds : All (OnId id P) dispatches

module _ (P : JobDispatch → Type 0) (id other : Uuid) (f : JobDispatch → JobDispatch) where
  pub other_holds :
      (other == id) ≡ false
      → ((dispatch : JobDispatch) → (f dispatch).id ≡ dispatch.id)
      → (dispatches : List JobDispatch) → All (OnId id P) dispatches
      → All (OnId id P) (update_where (has_dispatch_id other) f dispatches)
  other_holds ne same [] h = tt
  other_holds ne same (row ∷ rows) h = elim (Bool-cases (row.id == other)) [
    | inl e ↦ rw e (let s = same row in (λ is. ground arith), other_holds ne same rows h.1)
    | inr e ↦ rw e (h.0, other_holds ne same rows h.1)
  ]

  any_update :
      ((dispatch : JobDispatch) → (f dispatch).id ≡ dispatch.id)
      → (dispatches : List JobDispatch)
      → any (has_dispatch_id id) (update_where (has_dispatch_id other) f dispatches)
        ≡ any (has_dispatch_id id) dispatches
  any_update same [] = refl
  any_update same (row ∷ rows) = elim (Bool-cases (row.id == other)) [
    | inl e ↦ rw (e, same row, any_update same rows)
    | inr e ↦ rw (e, any_update same rows)
  ]

  -- A write to another row leaves it.
  pub Row-update :
      (other == id) ≡ false
      → ((dispatch : JobDispatch) → (f dispatch).id ≡ dispatch.id)
      → (dispatches : List JobDispatch) → Row id P dispatches
      → Row id P (update_where (has_dispatch_id other) f dispatches)
  Row-update ne same dispatches row = record {
    present = any_update same dispatches ∙ row.present;
    holds = other_holds ne same dispatches row.holds;
  }

pub find-id :
    (id : Uuid) (dispatches : List JobDispatch) (row : JobDispatch)
    → find (has_dispatch_id id) dispatches ≡ some row
    → (row.id == id) ≡ true
find-id id [] row e = cc
find-id id (d ∷ rest) row e = elim (Bool-cases (d.id == id)) [
  | inl t ↦ ground arith
  | inr f ↦ find-id id rest row (sym (rw f refl) ∙ e)
]
