-- ===== src/Dispatch/Restarts.antt =====
-- `reset` of src/arduino_component_kb/dispatch/repository.py, which retries call.
use arduino_component_knowle.Prelude.{
  ◌≤◌, ◌≡◌, refl, sym, ap, ◌∙◌, inl, inr, true, false, none, some, List, [], ◌∷◌, ◌++◌, find,
  update_where, arith, ◌==◌, Bool-cases, Option-cases, some-eq,
}
use arduino_component_knowle.Dispatch.Schema.{
  import_type, media_type, legacy_type, JobType, JobDispatch, Jobs,
}
use arduino_component_knowle.Dispatch.Writes.{has_dispatch_id}
use arduino_component_knowle.Dispatch.Repository.{
  DispatchCall, new_dispatch, add_dispatch, is_for, same_type, restart, reset_dispatch,
  is_claimable,
}

same_type_refl : (type : JobType) → same_type type type ≡ true
same_type_refl import_type = refl
same_type_refl media_type = refl
same_type_refl legacy_type = refl

module _ (call : DispatchCall) where
  new-is_for : is_for call (new_dispatch call) ≡ true
  new-is_for = rw (same_type_refl call.job_type) (ground arith)

  find-head :
      (d : JobDispatch) (rest : List JobDispatch)
      → is_for call d ≡ true
      → find (is_for call) (d ∷ rest) ≡ some d
  find-head d rest e = rw e refl

  find-skip :
      (d : JobDispatch) (rest : List JobDispatch)
      → is_for call d ≡ false
      → find (is_for call) (d ∷ rest) ≡ find (is_for call) rest
  find-skip d rest e = rw e refl

  find-add :
      (rows : List JobDispatch)
      → find (is_for call) rows ≡ none
      → find (is_for call) (rows ++ new_dispatch call ∷ []) ≡ some (new_dispatch call)
  find-add [] e = find-head (new_dispatch call) [] new-is_for
  find-add (d ∷ rest) e = elim (Bool-cases (is_for call d)) [
    | inl t ↦ (let h = find-head d rest t in cc)
    | inr n ↦
        find-skip d (rest ++ new_dispatch call ∷ []) n
        ∙ find-add rest (sym (find-skip d rest n) ∙ e)
  ]

  -- Rows with the identifier are restarted, which keeps their job.
  find-restart :
      (rows : List JobDispatch) (row : JobDispatch)
      → find (is_for call) rows ≡ some row
      → find (is_for call) (update_where (has_dispatch_id row.id) (restart call) rows)
        ≡ some (restart call row)
  find-restart [] row e = cc
  find-restart (d ∷ rest) row e = elim (Bool-cases (is_for call d)) [
    | inl t ↦
        (let same : d ≡ row = some-eq (sym (find-head d rest t) ∙ e) in
          let own : (d.id == row.id) ≡ true = (let i = ap (λ x. x.id) same in ground arith) in
          rw own (
            find-head (restart call d) (update_where (has_dispatch_id row.id) (restart call) rest) t
            ∙ ap (λ x. some (restart call x)) same))
    | inr n ↦ elim (Bool-cases (d.id == row.id)) [
      | inl t ↦ rw t (
          find-skip (restart call d) (update_where (has_dispatch_id row.id) (restart call) rest) n
          ∙ find-restart rest row (sym (find-skip d rest n) ∙ e))
      | inr o ↦ rw o (
          find-skip d (update_where (has_dispatch_id row.id) (restart call) rest) n
          ∙ find-restart rest row (sym (find-skip d rest n) ∙ e))
    ]
  ]

  reset-add :
      (db : Jobs)
      → find (is_for call) db.dispatches ≡ none
      → find (is_for call) (reset_dispatch call db).dispatches ≡ some (new_dispatch call)
  unfolding reset_dispatch add_dispatch
  reset-add db e = rw (reset_dispatch, e) (find-add db.dispatches e)

  reset-restart :
      (db : Jobs) (row : JobDispatch)
      → find (is_for call) db.dispatches ≡ some row
      → find (is_for call) (reset_dispatch call db).dispatches ≡ some (restart call row)
  unfolding reset_dispatch
  reset-restart db row e = rw (reset_dispatch, e) (find-restart db.dispatches row e)

  -- After a reset with at least one attempt allowed, whether the job had a dispatch or not, the
  -- table has a dispatch for the job that no attempt has been made for and that a claim at that time
  -- may take.
  pub reset_can_be_claimed :
      (db : Jobs)
      → 1 ≤ call.max_attempts
      → (row : JobDispatch) × (find (is_for call) (reset_dispatch call db).dispatches ≡ some row)
        × (row.attempts ≡ 0)
        × (is_claimable call.now row ≡ true)
  reset_can_be_claimed db allowed = elim (Option-cases (find (is_for call) db.dispatches)) [
    | inl e ↦ (new_dispatch call, reset-add db e, refl, ground arith)
    | inr (row, e) ↦ (restart call row, reset-restart db row e, refl, ground arith)
  ]
