-- ===== src/Dispatch/Undisturbed.antt =====
-- What stays of one row of the dispatch table while the transactions of
-- src/arduino_component_kb/dispatch/repository.py work on the other rows.
pub mod Writes
pub mod Transaction
pub mod Answers
use arduino_component_knowle.Prelude.{
  ◌≡◌, refl, sym, inl, inr, true, false, List, All, update_where, ◌==◌, Bool-cases,
}
use arduino_component_knowle.Auth.Domain.{Uuid}
use arduino_component_knowle.Dispatch.Schema.{
  DispatchStatus, pending, delivered, failed, JobDispatch,
}
use arduino_component_knowle.Dispatch.Writes.{is_pending, is_delivered, has_dispatch_id}
use arduino_component_knowle.Dispatch.Repository.{DispatchIntent}
use arduino_component_knowle.Dispatch.Rows.{OnId}

-- A dispatch with another identifier.
abbrev pub Other : Uuid → JobDispatch → Type 0
Other id dispatch = (dispatch.id == id) ≡ false

abbrev pub OtherIntent : Uuid → DispatchIntent → Type 0
OtherIntent id intent = (intent.id == id) ≡ false

-- A property `T` of the table by which the dispatch `id` satisfies `P`, and waits for an answer:
-- writes to other dispatches keep it.
pub record Undisturbed (id : Uuid) (P : JobDispatch → Type 0) (T : List JobDispatch → Type 0)
    : Type 0 where
  pub holds : (dispatches : List JobDispatch) → T dispatches → All (OnId id P) dispatches
  pub waits : (row : JobDispatch) → P row → is_pending row.status ≡ true
  pub after_write :
      (other : Uuid) (f : JobDispatch → JobDispatch)
      → (other == id) ≡ false
      → ((dispatch : JobDispatch) → (f dispatch).id ≡ dispatch.id)
      → (dispatches : List JobDispatch) → T dispatches
      → T (update_where (has_dispatch_id other) f dispatches)

delivered-not-pending : (s : DispatchStatus) → is_delivered s ≡ true → is_pending s ≡ false
delivered-not-pending pending e = sym e
delivered-not-pending delivered e = refl
delivered-not-pending failed e = refl

module _ (id : Uuid) (P : JobDispatch → Type 0) (T : List JobDispatch → Type 0)
    (u : Undisturbed id P T) where
  pub Other-delivered :
      (row : JobDispatch) → OnId id P row → is_delivered row.status ≡ true → Other id row
  Other-delivered row on is = elim (Bool-cases (row.id == id)) [
    | inl e ↦ (let w = u.waits row (on e) in let n = delivered-not-pending row.status is in cc)
    | inr e ↦ e
  ]
