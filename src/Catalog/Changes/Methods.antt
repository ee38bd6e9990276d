-- ===== src/Catalog/Changes/Methods.antt =====
-- `transition`, `show_hidden`, `restore_archived` and `touch_media_attachment` of
-- src/arduino_component_kb/catalog/service.py as changes of the catalog.
use arduino_component_knowle.Prelude.{ℕ, ◌≡◌, refl, false, not, Option, none, some, ◌==◌, find}
use arduino_component_knowle.Exec.{lift, ◌>>=◌}
use arduino_component_knowle.Exec.Returns.{
  Returns, Returns-lift, Returns-read, Returns-raise_if, Returns-modify,
}
use arduino_component_knowle.Auth.Domain.{Uuid}
use arduino_component_knowle.Catalog.Domain.{
  ComponentStatus, draft, published, hidden, ComponentChangeAction, transition_action, DraftData,
  shown, restored, media_attached,
}
use arduino_component_knowle.Catalog.Schema.{Component, Catalog}
use arduino_component_knowle.Catalog.Content.{CatalogPlatform, draft_data}
use arduino_component_knowle.Catalog.Publication.{Method}
use arduino_component_knowle.Catalog.Lifecycle.{
  CatalogDraw, has_component_id, put_component, locked, card, advanced, transitioned, write_row,
  transition, show_hidden, restore_archived, touch_media_attachment, action_of, found_component,
}
use arduino_component_knowle.Catalog.Changes.{
  same_status-eq, Documented, written, Change, validate_target-reads,
}
use arduino_component_knowle.Catalog.Changes.Documents.{
  kept, upserted, publish_document-lem, restored_document-lem,
}
use arduino_component_knowle.Catalog.Changes.Rules.{
  Returns-card, found_component-ok, not-false, restore_target-ok, show_test, transitioned-lem,
  TransitionRule, ShowRule, RestoreRule, TouchRule,
}

module _ (platform : CatalogPlatform) (d : CatalogDraw) (actor_id : Uuid) where
  Returns-write_row :
      {B : Type 0} {Q : B → Catalog → Type 0} {s : Catalog} (moved : Component)
      (action : ComponentChangeAction) (previous : ComponentStatus) (k : DraftData → Method B)
      → Returns Q
          (written platform d actor_id action previous moved s)
          (k (draft_data platform moved (put_component moved s)))
      → Returns Q s (write_row platform d moved actor_id action previous >>= k)
  unfolding write_row written ◌>>=◌
  Returns-write_row moved action previous k h = record { on_ok = h.on_ok }

  module _ (id : Uuid) (expected : ℕ) where
    pub Returns-locked :
        {B : Type 0} {Q : B → Catalog → Type 0} {s : Catalog} (k : Component → Method B)
        → ((row : Component)
            → find (has_component_id id) s.components ≡ some row
            → Returns Q s (k row))
        → Returns Q s (locked id >>= k)
    unfolding locked ◌>>=◌
    Returns-locked {s = s} k h = record {
      on_ok =
          (Returns-lift (found_component (find (has_component_id id) s.components)) k
            (λ row p. h row (found_component-ok _ row p))).on_ok;
    }

    Returns-action :
        {B : Type 0} {Q : B → Catalog → Type 0} {s : Catalog} (o : Option ComponentChangeAction)
        (action : ComponentChangeAction) (k : ComponentChangeAction → Method B)
        → o ≡ some action
        → Returns Q s (k action)
        → Returns Q s (lift (action_of o) >>= k)
    unfolding ◌>>=◌
    Returns-action o action k e h = rw e (record { on_ok = h.on_ok })

    pub Returns-transition :
        (target : ComponentStatus) (action : ComponentChangeAction) (s : Catalog)
        → transition_action target ≡ some action
        → Returns
            (Change platform d id expected actor_id action
              (TransitionRule platform d actor_id target s)
              s)
            s
            (transition platform d id expected target actor_id)
    unfolding transition TransitionRule
    Returns-transition target action s h = Returns-locked _ (λ row found.
        Returns-raise_if _ _ _ (λ current. Returns-raise_if _ _ _ (λ allowed.
          Returns-read _ _ (validate_target-reads platform target row s) (λ done checked.
            Returns-action _ action _ h (
              Returns-write_row _ _ _ _ (
                Returns-modify _ _ (
                  Returns-card platform _ (λ c category in_category same_id same_revision same.
                    let (kept_id, next, status) = transitioned-lem row target actor_id d.now in
                    record {
                      row = row;
                      found = found;
                      is_current = not-false _ current;
                      moved = transitioned row target actor_id d.now;
                      moved_id = kept_id;
                      moved_revision = next;
                      rule = (not-false _ allowed, checked, refl);
                      documented = publish_document-lem platform target _ _ _ _ status;
                      category = category;
                      in_category = in_category;
                      card_id = same_id;
                      card_revision = same_revision;
                      card_status = same;
                    }))))))))

    -- The methods that set a status and the revision only.
    advanced-Change :
        (action : ComponentChangeAction) (Rule : Component → Component → Type 0) (s : Catalog)
        (row : Component) (target : ComponentStatus) (t : Catalog)
        → find (has_component_id id) s.components ≡ some row
        → not (row.revision == expected) ≡ false
        → Rule row (advanced row target none actor_id d.now)
        → Documented
            (advanced row target none actor_id d.now)
            (written platform d actor_id action row.status
              (advanced row target none actor_id d.now)
              s)
            t
        → Returns
            (Change platform d id expected actor_id action Rule s)
            t
            (card platform (advanced row target none actor_id d.now))
    advanced-Change action Rule s row target t found current rule documented =
        Returns-card platform _ (λ c category in_category same_id same_revision same. record {
          row = row;
          found = found;
          is_current = not-false _ current;
          moved = advanced row target none actor_id d.now;
          moved_id = refl;
          moved_revision = refl;
          rule = rule;
          documented = documented;
          category = category;
          in_category = in_category;
          card_id = same_id;
          card_revision = same_revision;
          card_status = same;
        })

    pub Returns-show_hidden :
        (s : Catalog)
        → Returns
            (Change platform d id expected actor_id shown (ShowRule d actor_id) s)
            s
            (show_hidden platform d id expected actor_id)
    unfolding show_hidden ShowRule
    Returns-show_hidden s = Returns-locked _ (λ row found. Returns-raise_if _ _ _ (λ current.
        Returns-raise_if _ _ _ (λ allowed.
          let was_hidden = same_status-eq row.status hidden (show_test _ _ allowed) in
          Returns-write_row _ _ _ _ (
            Returns-modify _ _ (
              advanced-Change shown _ s row published _ found current (was_hidden, refl)
                (rw was_hidden (upserted platform _ _ _ _ _ refl)))))))

    pub Returns-restore_archived :
        (s : Catalog)
        → Returns
            (Change platform d id expected actor_id restored (RestoreRule d actor_id) s)
            s
            (restore_archived platform d id expected actor_id)
    unfolding restore_archived RestoreRule
    Returns-restore_archived s = Returns-locked _ (λ row found. Returns-raise_if _ _ _ (λ current.
        Returns-lift _ _ (λ target is_target.
          let (was_archived, from, live) = restore_target-ok platform row target is_target in
          Returns-write_row _ _ _ _ (
            Returns-modify _ _ (
              advanced-Change restored _ s row target _ found current
                (target, was_archived, from, live, refl)
                (rw was_archived (restored_document-lem platform target _ _ _ _ refl live)))))))

    pub Returns-touch :
        (s : Catalog)
        → Returns
            (Change platform d id expected actor_id media_attached (TouchRule d actor_id) s)
            s
            (touch_media_attachment platform d id expected actor_id)
    unfolding touch_media_attachment TouchRule
    Returns-touch s = Returns-locked _ (λ row found. Returns-raise_if _ _ _ (λ current.
        Returns-raise_if _ _ _ (λ allowed. Returns-write_row _ _ _ _ (
          advanced-Change media_attached _ s row draft _ found current (not-false _ allowed, refl)
            (kept _ _ refl)))))
