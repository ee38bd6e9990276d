-- ===== src/Catalog/RoundTrip.antt =====
-- `transition` to the archive and `restore_archived` of
-- src/arduino_component_kb/catalog/service.py.
use arduino_component_knowle.Prelude.{
  ℕ, ◌+◌, ◌≡◌, refl, ap, ◌∙◌, true, false, none, some, arith, ◌==◌, find,
}
use arduino_component_knowle.Exec.{ok, ◌>>=◌}
use arduino_component_knowle.Auth.Domain.{Uuid, Time}
use arduino_component_knowle.Catalog.Domain.{
  draft, in_review, changes_requested, approved, published, hidden, ComponentStatus, archived,
  restored, same_status, is_transition_source, CatalogCard,
}
use arduino_component_knowle.Catalog.Schema.{Component, Category, Catalog}
use arduino_component_knowle.Catalog.Content.{CatalogPlatform, draft_data}
use arduino_component_knowle.Catalog.Lifecycle.{
  CatalogDraw, has_component_id, locked, put_component, snapshot, write_row, advanced, transitioned,
  card, build_card, card_from_parts, restored_document, restore_target, restore_archived,
}
use arduino_component_knowle.Catalog.Changes.{written, change_document}
use arduino_component_knowle.Catalog.Changes.Effects.{Change-find}
use arduino_component_knowle.Catalog.Changes.Documents.{restored_document-lem}
use arduino_component_knowle.Catalog.Changes.Rules.{TransitionRule}
use arduino_component_knowle.Catalog.Operations.{to_status, restore, mutation}
use arduino_component_knowle.Catalog.Steps.{mutation-changes, RequestRule}

live_source :
    (status : ComponentStatus)
    → is_transition_source archived status ≡ true
    → same_status status archived ≡ false
live_source archived h = cc
live_source draft h = refl
live_source in_review h = refl
live_source changes_requested h = refl
live_source approved h = refl
live_source published h = refl
live_source hidden h = refl

module _ (platform : CatalogPlatform) where
  card-built :
      (row : Component) (category : Category) (t : Catalog)
      → find (λ c. c.id == row.primary_category_id) t.categories ≡ some category
      → (card platform row t).0 ≡ ok (card_from_parts platform row category t)
  unfolding card build_card ◌>>=◌
  card-built row category t found = rw found refl

  archived_target :
      (row : Component) (actor_id : Uuid) (now : Time)
      → same_status row.status archived ≡ false
      → restore_target platform (transitioned row archived actor_id now) ≡ ok row.status
  unfolding transitioned
  archived_target row actor_id now live = rw live refl

  module _ (d : CatalogDraw) (id : Uuid) (expected : ℕ) (actor_id : Uuid) (s : Catalog)
      (row : Component) (target : ComponentStatus) where
    -- the catalog that `restore_archived` leaves
    abbrev pub after_restore : Catalog
    after_restore =
        let moved = advanced row target none actor_id d.now in
        restored_document platform target moved (draft_data platform moved (put_component moved s))
          row.published_at (written platform d actor_id restored archived moved s)

    restore_archived-lem :
        find (has_component_id id) s.components ≡ some row
        → (row.revision == expected) ≡ true
        → restore_target platform row ≡ ok target
        → restore_archived platform d id expected actor_id s
          ≡ card platform (advanced row target none actor_id d.now) after_restore
    unfolding restore_archived locked write_row written ◌>>=◌
    restore_archived-lem found current is_target = rw (found, current, is_target) refl

    after_restore-categories :
        same_status target archived ≡ false → after_restore.categories ≡ s.categories
    unfolding change_document written put_component snapshot
    after_restore-categories live =
        let documented =
          restored_document-lem platform target (advanced row target none actor_id d.now) _
            row.published_at
            (written platform d actor_id restored archived (advanced row target none actor_id d.now)
              s)
            refl live in
        ap (λ db. db.categories) documented.result

  -- A card that has just been archived can be restored with the next revision: the restoration
  -- returns the card with the status that it had, two revisions later.
  pub restore-archived :
      (d e : CatalogDraw) (id : Uuid) (expected : ℕ) (actor_id other_id : Uuid) (card : CatalogCard)
      (s t : Catalog)
      → mutation platform (to_status archived) d id expected actor_id s ≡ (ok card, t)
      → (row : Component) × (again : CatalogCard) × (find (has_component_id id) s.components
          ≡ some row)
        × ((mutation platform restore e id (expected + 1) other_id t).0 ≡ ok again)
        × (again.status ≡ row.status)
        × (again.revision ≡ row.revision + 2)
  unfolding RequestRule TransitionRule card_from_parts
  restore-archived d e id expected actor_id other_id card s t returned =
      let (action, is_action, change) =
        mutation-changes platform (to_status archived) d id expected actor_id card s t returned in
      let (allowed, checked, same) = change.rule in
      let live = live_source change.row.status allowed in
      let next = change.moved_revision in
      let current = change.is_current in
      let is_target =
        ap (restore_target platform) same ∙ archived_target change.row actor_id d.now live in
      let restored_row = advanced change.moved change.row.status none other_id e.now in
      let end = after_restore e id expected other_id t change.moved change.row.status in
      (
        change.row,
        card_from_parts platform restored_row change.category end,
        change.found,
        ap (λ r. r.0)
              (restore_archived-lem e id (expected + 1) other_id t change.moved change.row.status
                (Change-find change) (ground arith) is_target)
            ∙ card-built restored_row change.category end (
                ap (λ rows. find (λ c. c.id == change.moved.primary_category_id) rows)
                  (after_restore-categories e id expected other_id t change.moved change.row.status
                    live)
                ∙ change.in_category),
        refl,
        omega arith,
      )
