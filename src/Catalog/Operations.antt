-- ===== src/Catalog/Operations.antt =====
-- `CatalogLifecycleOperations` of src/arduino_component_kb/catalog/operations.py: one lifecycle
-- change, its audit event and the commit.
use arduino_component_knowle.Prelude.{
  ℕ, String, Bool, ◌&&◌, Option, none, some, [], ◌∷◌, find, ◌==◌, str_eq, if◌then◌else◌,
}
use arduino_component_knowle.Exec.{Result, ok, err, Exec, pure, lift, gets, ◌>>=◌, ◌>>◌}
use arduino_component_knowle.Auth.Domain.{Time, Uuid, AuthError}
use arduino_component_knowle.Auth.Schema.{Details, null, number, text, Db}
use arduino_component_knowle.Auth.Audit.{AuditCall, audit}
use arduino_component_knowle.Catalog.Domain.{
  ComponentStatus, status_value, ComponentChangeAction, shown, restored, action_value,
  transition_action, CatalogCard, CatalogError, runtime_error,
}
use arduino_component_knowle.Catalog.Schema.{ComponentRevision, Catalog}
use arduino_component_knowle.Catalog.Content.{CatalogPlatform}
use arduino_component_knowle.Catalog.Publication.{Method}
use arduino_component_knowle.Catalog.Lifecycle.{
  CatalogDraw, transition, show_hidden, restore_archived,
}

-- The database of both parts.
pub record Application : Type 0 where
  pub catalog : Catalog
  pub accounts : Db

pub data OperationError : Type 0 where
  catalog_failed : CatalogError → OperationError
  audit_failed : AuthError → OperationError

abbrev pub Operation : Type 0 → Type 0
Operation A = Exec OperationError Application A

abbrev pub map_error : {E F A : Type 0} → (E → F) → Result E A → Result F A
map_error f (ok a) = ok a
map_error f (err e) = err (f e)

unfoldable pub on_catalog : {A : Type 0} → Method A → Operation A
on_catalog method app =
    let (result, catalog) = method app.catalog in
    (map_error catalog_failed result, record app { catalog = catalog })

unfoldable pub on_accounts : Exec AuthError Db (Unit {0}) → Operation (Unit {0})
on_accounts method app =
    let (result, accounts) = method app.accounts in
    (map_error audit_failed result, record app { accounts = accounts })

-- What the operation draws beside its mutation.
pub record AuditDraw : Type 0 where
  pub id : Uuid
  pub now : Time
  pub request_id : Option String

abbrev status_or_null : Option ComponentStatus → Details → Details
status_or_null none rest = ("previous_status", null) ∷ rest
status_or_null (some status) rest = ("previous_status", text (status_value status)) ∷ rest

abbrev pub revision_details : CatalogCard → ComponentRevision → Details
revision_details card revision =
    ("revision", number card.revision)
    ∷ status_or_null revision.previous_status
        (("status", text (status_value revision.status)) ∷ ("summary", text revision.summary) ∷ [])

abbrev pub is_revision_of : CatalogCard → ComponentRevision → Bool
is_revision_of card row = row.component_id == card.id && row.revision == card.revision

-- `revision is None or revision.action != action.value`
abbrev pub consistent :
    ComponentChangeAction → Option ComponentRevision → Result OperationError ComponentRevision
consistent action none = err (catalog_failed runtime_error)
consistent action (some row) =
    if str_eq (action_value row.action) (action_value action)
    then ok row
    else err (catalog_failed runtime_error)

abbrev pub audit_call :
    AuditDraw → Uuid → ComponentChangeAction → CatalogCard → ComponentRevision → AuditCall
audit_call d actor_id action card revision = record {
  id = d.id;
  now = d.now;
  actor_user_id = some actor_id;
  action = action_value action;
  object_type = "component";
  object_id = some card.id;
  request_id = d.request_id;
  outcome = "success";
  details = some (revision_details card revision);
  actor_type = none;
}

-- `_audit_and_commit`
unfoldable pub audit_and_commit :
    AuditDraw → CatalogCard → ComponentChangeAction → Uuid → Operation (Unit {0})
audit_and_commit d card action actor_id = do
  found ← gets (λ app. find (is_revision_of card) app.catalog.revisions)
  revision ← lift (consistent action found)
  on_accounts (audit (audit_call d actor_id action card revision))

abbrev pub configured : Option ComponentChangeAction → Result OperationError ComponentChangeAction
configured none = err (catalog_failed runtime_error)
configured (some action) = ok action

unfoldable pub run_mutation :
    AuditDraw → Method CatalogCard → Option ComponentChangeAction → Uuid → Operation CatalogCard
run_mutation d mutation action actor_id = do
  card ← on_catalog mutation
  configured_action ← lift (configured action)
  audit_and_commit d card configured_action actor_id
  pure card

-- `except Exception: rollback; raise`
abbrev pub commit_or_rollback :
    {A : Type 0}
    → Application
    → Result OperationError A × Application
    → Result OperationError A × Application
commit_or_rollback before (ok a, after) = (ok a, after)
commit_or_rollback before (err e, after) = (err e, before)

-- `_execute`
unfoldable pub execute :
    AuditDraw → Method CatalogCard → Option ComponentChangeAction → Uuid → Operation CatalogCard
execute d mutation action actor_id app =
    commit_or_rollback app (run_mutation d mutation action actor_id app)

-- The public methods, by name.
pub data LifecycleRequest : Type 0 where
  to_status : ComponentStatus → LifecycleRequest
  show : LifecycleRequest
  restore : LifecycleRequest

module _ (platform : CatalogPlatform) where
  abbrev pub mutation : LifecycleRequest → CatalogDraw → Uuid → ℕ → Uuid → Method CatalogCard
  mutation (to_status target) d id expected actor_id =
      transition platform d id expected target actor_id
  mutation show d id expected actor_id = show_hidden platform d id expected actor_id
  mutation restore d id expected actor_id = restore_archived platform d id expected actor_id

  abbrev pub request_action : LifecycleRequest → Option ComponentChangeAction
  request_action (to_status target) = transition_action target
  request_action show = some shown
  request_action restore = some restored

  unfoldable pub perform_lifecycle :
      LifecycleRequest → CatalogDraw → AuditDraw → Uuid → ℕ → Uuid → Operation CatalogCard
  perform_lifecycle request d a id expected actor_id =
      execute a (mutation request d id expected actor_id) (request_action request) actor_id
