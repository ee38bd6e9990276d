-- ===== src/Dispatch/Stranded.antt =====
-- A dispatch whose last attempt was claimed and never answered, as when the reconciler of
-- src/arduino_component_kb/dispatch/reconciler.py dies between `claim_due` and the publication.
pub mod Passes
use arduino_component_knowle.Prelude.{◌≡◌, true}
use arduino_component_knowle.Auth.Domain.{Uuid}
use arduino_component_knowle.Dispatch.Schema.{JobDispatch, Jobs}
use arduino_component_knowle.Dispatch.Writes.{is_pending}
use arduino_component_knowle.Dispatch.Recovery.{is_exhausted}
use arduino_component_knowle.Dispatch.Rows.{Row}

-- Published for the last time, and waiting for an answer.
pub record Spent (dispatch : JobDispatch) : Type 0 where
  pub waits : is_pending dispatch.status ≡ true
  pub exhausted : is_exhausted dispatch ≡ true

abbrev pub Stranded : Uuid → Jobs → Type 0
Stranded id db = Row id Spent db.dispatches
