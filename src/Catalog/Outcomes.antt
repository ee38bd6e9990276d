-- ===== src/Catalog/Outcomes.antt =====
-- The results of `CatalogLifecycleOperations` of src/arduino_component_kb/catalog/operations.py.
use arduino_component_knowle.Prelude.{
  ℕ, String, ◌≡◌, refl, sym, true, some, [], ◌∷◌, ◌++◌, str_eq, eq_iff, find,
}
use arduino_component_knowle.Exec.{Result, ok, err, ◌>>=◌}
use arduino_component_knowle.Auth.Domain.{Uuid}
use arduino_component_knowle.Auth.Schema.{Details, number, text, Db, AuditEvent, Detail}
use arduino_component_knowle.Auth.Audit.{
  audit, add_audit_event, is_label, safe_audit_details, resolved_actor_type, is_safe_value,
  is_allowed_key, check_values,
}
use arduino_component_knowle.Catalog.Domain.{
  CatalogCard, created, updated, media_attached, images_updated, submitted_for_review,
  returned_for_changes, accepted, made_public, made_hidden, shown, moved_to_archive, restored,
  merged, archived_by_merge, ComponentStatus, ComponentChangeAction, draft, in_review,
  changes_requested, approved, published, hidden, archived, action_value, change_summary,
  status_value, CatalogError,
}
use arduino_component_knowle.Catalog.Schema.{Component, ComponentRevision, Catalog}
use arduino_component_knowle.Catalog.Content.{CatalogPlatform}
use arduino_component_knowle.Catalog.Lifecycle.{CatalogDraw, has_component_id, history_row}
use arduino_component_knowle.Catalog.Changes.Effects.{Change-revisions, new_entry}
use arduino_component_knowle.Catalog.History.{History, find-new_entry}
use arduino_component_knowle.Catalog.Steps.{mutation-changes}
use arduino_component_knowle.Catalog.Operations.{
  LifecycleRequest, mutation, request_action, perform_lifecycle, AuditDraw, audit_call,
  revision_details, Application, execute, run_mutation, on_catalog, on_accounts, audit_and_commit,
  OperationError, catalog_failed, consistent, is_revision_of,
}

-- ## The audit event of a change is always accepted

status_safe : (status : ComponentStatus) → is_safe_value (text (status_value status)) ≡ true
unfolding is_safe_value
status_safe draft = refl
status_safe in_review = refl
status_safe changes_requested = refl
status_safe approved = refl
status_safe published = refl
status_safe hidden = refl
status_safe archived = refl

summary_safe :
    (action : ComponentChangeAction) → is_safe_value (text (change_summary action)) ≡ true
unfolding is_safe_value
summary_safe created = refl
summary_safe updated = refl
summary_safe media_attached = refl
summary_safe images_updated = refl
summary_safe submitted_for_review = refl
summary_safe returned_for_changes = refl
summary_safe accepted = refl
summary_safe made_public = refl
summary_safe made_hidden = refl
summary_safe shown = refl
summary_safe moved_to_archive = refl
summary_safe restored = refl
summary_safe merged = refl
summary_safe archived_by_merge = refl

action_label : (action : ComponentChangeAction) → is_label (action_value action) ≡ true
unfolding is_label
action_label created = refl
action_label updated = refl
action_label media_attached = refl
action_label images_updated = refl
action_label submitted_for_review = refl
action_label returned_for_changes = refl
action_label accepted = refl
action_label made_public = refl
action_label made_hidden = refl
action_label shown = refl
action_label moved_to_archive = refl
action_label restored = refl
action_label merged = refl
action_label archived_by_merge = refl

number_safe : (n : ℕ) → is_safe_value (number n) ≡ true
unfolding is_safe_value
number_safe n = refl

check_values-cons :
    (key : String) (value : Detail) (rest : Details)
    → is_safe_value value ≡ true
    → check_values rest ≡ ok rest
    → check_values ((key, value) ∷ rest) ≡ ok ((key, value) ∷ rest)
unfolding check_values
check_values-cons key value rest h r = cc

no_values : check_values [] ≡ ok []
unfolding check_values
no_values = refl

details_safe :
    (card : CatalogCard) (entry : ComponentRevision) (action : ComponentChangeAction)
    (previous : ComponentStatus)
    → entry.previous_status ≡ some previous
    → entry.summary ≡ change_summary action
    → safe_audit_details (some (revision_details card entry)) ≡ ok (revision_details card entry)
unfolding safe_audit_details is_allowed_key
details_safe card entry action previous was summary =
    rw (was, summary)
      (check_values-cons _ _ _ (number_safe card.revision) (
        check_values-cons _ _ _ (status_safe previous) (
          check_values-cons _ _ _ (status_safe entry.status)
            (check_values-cons _ _ _ (summary_safe action) no_values))))

-- What the event of a change says.
abbrev pub change_details :
    CatalogCard → ComponentStatus → ComponentStatus → ComponentChangeAction → Details
change_details card previous status action =
    ("revision", number card.revision)
    ∷ ("previous_status", text (status_value previous))
    ∷ ("status", text (status_value status))
    ∷ ("summary", text (change_summary action))
    ∷ []

abbrev pub change_event :
    AuditDraw
    → Uuid
    → CatalogCard
    → ComponentStatus
    → ComponentStatus
    → ComponentChangeAction
    → AuditEvent
change_event d actor_id card previous status action = record {
  id = d.id;
  occurred_at = d.now;
  actor_user_id = some actor_id;
  actor_type = "user";
  action = action_value action;
  object_type = "component";
  object_id = some card.id;
  request_id = d.request_id;
  outcome = "success";
  details = change_details card previous status action;
}

audit-accepted :
    (d : AuditDraw) (actor_id : Uuid) (card : CatalogCard) (entry : ComponentRevision)
    (action : ComponentChangeAction) (previous : ComponentStatus) (db : Db)
    → entry.previous_status ≡ some previous
    → entry.summary ≡ change_summary action
    → audit (audit_call d actor_id action card entry) db
      ≡ (ok tt, add_audit_event (change_event d actor_id card previous entry.status action) db)
unfolding audit ◌>>=◌ resolved_actor_type
audit-accepted d actor_id card entry action previous db was summary =
    let safe = details_safe card entry action previous was summary in
    rw (action_label action, safe, was, summary) refl

-- ## The results of an operation

same_text : (t : String) → str_eq t t ≡ true
same_text t = (eq_iff t t).1 refl

consistent-accepted :
    (action : ComponentChangeAction) (entry : ComponentRevision)
    → entry.action ≡ action
    → consistent action (some entry) ≡ ok entry
consistent-accepted action entry same = rw (same, same_text (action_value action)) refl

commit-accepted :
    (a : AuditDraw) (card : CatalogCard) (action : ComponentChangeAction) (actor_id : Uuid)
    (app : Application) (entry : ComponentRevision) (previous : ComponentStatus)
    → find (is_revision_of card) app.catalog.revisions ≡ some entry
    → entry.action ≡ action
    → entry.previous_status ≡ some previous
    → entry.summary ≡ change_summary action
    → audit_and_commit a card action actor_id app ≡ (
      ok tt,
      record app {
        accounts =
            add_audit_event
              (change_event a actor_id card previous entry.status action)
              app.accounts;
      },
    )
unfolding audit_and_commit on_accounts ◌>>=◌
commit-accepted a card action actor_id app entry previous found same was summary =
    let consistent_entry = consistent-accepted action entry same in
    let accepted = audit-accepted a actor_id card entry action previous app.accounts was summary in
    rw (found, consistent_entry, accepted) refl

module _ (platform : CatalogPlatform) (request : LifecycleRequest) (d : CatalogDraw) (a : AuditDraw)
    (id : Uuid) (expected : ℕ) (actor_id : Uuid) (app : Application) where
  -- The operation fails with the error of the method and leaves the database, or it returns the
  -- card: then the method's writes stay, one history row and one event have been added, and they
  -- agree with the card.
  pub data Outcome : Result OperationError CatalogCard × Application → Type 0 where
    refused :
        (e : CatalogError) (t : Catalog)
        → mutation platform request d id expected actor_id app.catalog ≡ (err e, t)
        → Outcome (err (catalog_failed e), app)
    done :
        (card : CatalogCard) (row : Component) (entry : ComponentRevision)
        (action : ComponentChangeAction) (t : Catalog)
        → mutation platform request d id expected actor_id app.catalog ≡ (ok card, t)
        → request_action platform request ≡ some action
        → find (has_component_id id) app.catalog.components ≡ some row
        → t.revisions ≡ app.catalog.revisions ++ entry ∷ []
        → (entry.component_id ≡ card.id)
          × (entry.revision ≡ card.revision)
          × (entry.status ≡ card.status)
          × (entry.action ≡ action)
        → Outcome (
          ok card,
          record {
            catalog = t;
            accounts =
                add_audit_event
                  (change_event a actor_id card row.status card.status action)
                  app.accounts;
          },
        )

  Outcome-at :
      (r : Result CatalogError CatalogCard × Catalog)
      → mutation platform request d id expected actor_id app.catalog ≡ r
      → History app.catalog
      → Outcome (perform_lifecycle platform request d a id expected actor_id app)
  unfolding perform_lifecycle execute run_mutation on_catalog on_accounts new_entry history_row
      ◌>>=◌
  Outcome-at (err e, t) same history = rw same (refused e t same)
  Outcome-at (ok card, t) same history =
      let (action, is_action, change) =
        mutation-changes platform request d id expected actor_id card app.catalog t same in
      let entry = new_entry platform d actor_id action change.row change.moved app.catalog in
      let committed =
        commit-accepted a card action actor_id (record app { catalog = t }) entry change.row.status
          (find-new_entry change history) refl refl refl in
      rw (same, is_action, committed)
        (rw (sym change.card_status) (
          done card change.row entry action t same is_action change.found (Change-revisions change)
            (sym change.card_id, sym change.card_revision, sym change.card_status, refl)))

  -- Where no history row is ahead of its card, a lifecycle operation either fails with the error of
  -- its catalog method and leaves the database as it was, or returns the card with one history row
  -- and one audit event added, which agree with the card: its own RuntimeErrors and a refusal of
  -- the audit never occur.
  pub perform_lifecycle-Outcome :
      History app.catalog
      → Outcome (perform_lifecycle platform request d a id expected actor_id app)
  perform_lifecycle-Outcome = Outcome-at _ refl
